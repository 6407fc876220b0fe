-- ===== src/Mediate/Outcome.antt =====
-- What a mediated write leaves on the file system.
use witseal.Prelude.{
  ℕ, ◌≡◌, ◌⊎◌, refl, ap, ◌∙◌, true, false, ◌==◌, ==_iff, [], ◌∷◌, ◌++◌, subst, Option, none, some,
  length, take, Bool-cases, inl, inr,
}
use witseal.Prelude.Text.{Text, text_eq, text_eq_iff}
use witseal.Schema.Intent.{FileWriteIntent, WriteMode, overwrite, append, create_only}
use witseal.Schema.Execution.{ExecutionResult}
use witseal.Capture.{Bytes}
use witseal.Mediate.Safe.{IsSafe, validate_path_safety-IsSafe}
use witseal.Mediate.{
  NodeError, Entry, file, FileSystem, FileHost, Content, put, bytes_at, normalize_content,
  validate_path_safety, perform_write, write_until, write_bytes, create_new, unless_refused,
  open_and_write, after_write, write_if_safe, mediate_file_write, write_executable, file_result,
}

-- What is declared of the file behind a write in a mode.
abbrev pub file_behind : WriteMode → FileSystem → Text → Bytes → Bytes
file_behind append fs path bytes = bytes_at (fs path) ++ bytes
file_behind overwrite fs path bytes = bytes
file_behind create_only fs path bytes = bytes

module _ (host : FileHost) (started_at finished_at : Text) where
  -- The content is the declared one, the path is safe, every path that names the same file shows the
  -- declared file afterwards, and nothing has changed at any other path.
  pub record Written (intent : FileWriteIntent) (content : Option Content) (fs after : FileSystem)
      : Type 0 where
    pub bytes : Bytes
    pub given : (c : Content) × ((content ≡ some c) × (bytes ≡ normalize_content host c))
    pub size : length bytes ≡ intent.content_size_bytes
    pub hash : host.codecs.sha256_hex bytes ≡ host.to_lower_case intent.content_hash
    pub safe : IsSafe host fs (host.resolve_path intent.path)
    pub fresh : intent.mode ≡ create_only → fs (host.resolve_path intent.path) ≡ none
    pub behind :
        (q : Text)
        → host.same_file q (host.resolve_path intent.path) ≡ true
        → after q ≡ some (file (file_behind intent.mode fs (host.resolve_path intent.path) bytes))
    pub others :
        (q : Text) → host.same_file q (host.resolve_path intent.path) ≡ false → after q ≡ fs q

  -- The write broke off: only the file that the path names has changed.
  abbrev pub BrokeOff : Text → FileSystem → FileSystem → Type 0
  BrokeOff path fs after =
      ((n : ℕ) × ((e : NodeError) × (host.fault ≡ some (n, e))))
      × ((q : Text) → host.same_file q path ≡ false → after q ≡ fs q)

  -- An error with nothing changed, or with a write that broke off.
  abbrev pub Failed : Text → FileSystem → FileSystem → Type 0
  Failed path fs after = (after ≡ fs) ⊎ BrokeOff path fs after

  put-other :
      (fs : FileSystem) (path q : Text) (entry : Entry)
      → host.same_file q path ≡ false
      → put host.same_file fs path entry q ≡ fs q
  put-other fs path q entry h = rw h refl

  abbrev Performed : FileSystem → Text → Bytes → Option NodeError × FileSystem → Type 0
  Performed fs path all p =
      ((p.0 ≡ none) × (p.1 ≡ put host.same_file fs path (file all)))
      ⊎ ((e : NodeError) × ((p.0 ≡ some e) × Failed path fs p.1))

  write_until-Performed :
      (o : Option (ℕ × NodeError)) (fs : FileSystem) (path : Text) (old bytes : Bytes)
      → host.fault ≡ o
      → Performed fs path (old ++ bytes) (write_until host.same_file o fs path old bytes)
  write_until-Performed none fs path old bytes h = inl (refl, refl)
  write_until-Performed (some (n, e)) fs path old bytes h =
      inr (e, (refl, inr ((n, (e, h)), λ q other. put-other fs path q _ other)))

  write_bytes-Performed :
      (fs : FileSystem) (path : Text) (old bytes : Bytes)
      → Performed fs path (old ++ bytes) (write_bytes host fs path old bytes)
  write_bytes-Performed fs path old bytes = write_until-Performed host.fault fs path old bytes refl

  abbrev Opened : WriteMode → FileSystem → Text → Bytes → Option NodeError × FileSystem → Type 0
  Opened mode fs path bytes p =
      ((mode ≡ create_only → fs path ≡ none)
        × ((p.0 ≡ none)
            × (p.1 ≡ put host.same_file fs path (file (file_behind mode fs path bytes)))))
      ⊎ ((e : NodeError) × ((p.0 ≡ some e) × Failed path fs p.1))

  Performed-Opened :
      (mode : WriteMode) (fs : FileSystem) (path : Text) (bytes : Bytes)
      (p : Option NodeError × FileSystem)
      → (mode ≡ create_only → fs path ≡ none)
      → Performed fs path (file_behind mode fs path bytes) p
      → Opened mode fs path bytes p
  Performed-Opened mode fs path bytes p fresh (inl done) = inl (fresh, done)
  Performed-Opened mode fs path bytes p fresh (inr failure) = inr failure

  -- A single call that writes all the bytes.
  abbrev pub WritesAll : Type 0
  WritesAll = (n : ℕ) → host.written n ≡ n

  take-all : (bytes : Bytes) → take (length bytes) bytes ≡ bytes
  take-all [] = refl
  take-all (b ∷ bytes) = ap (λ l. b ∷ l) (take-all bytes)

  create_new-Opened :
      (fs : FileSystem) (path : Text) (bytes : Bytes) (o : Option Entry)
      → WritesAll
      → fs path ≡ o
      → Opened create_only fs path bytes (create_new host fs path bytes o)
  create_new-Opened fs path bytes none whole absent =
      Performed-Opened create_only fs path bytes _ (λ h. absent)
        (subst
          (λ b.
            Performed fs path b
              (write_bytes host fs path [] (take (host.written (length bytes)) bytes)))
          (ap (λ n. take n bytes) (whole (length bytes)) ∙ take-all bytes)
          (write_bytes-Performed fs path [] (take (host.written (length bytes)) bytes)))
  create_new-Opened fs path bytes (some entry) whole there = inr (_, (refl, inl refl))

  open_and_write-Opened :
      (mode : WriteMode) (fs : FileSystem) (path : Text) (bytes : Bytes)
      → WritesAll
      → Opened mode fs path bytes (open_and_write host mode fs path bytes)
  open_and_write-Opened overwrite fs path bytes whole =
      Performed-Opened overwrite fs path bytes _ (λ h. cc) (write_bytes-Performed fs path [] bytes)
  open_and_write-Opened append fs path bytes whole =
      Performed-Opened append fs path bytes _ (λ h. cc)
        (write_bytes-Performed fs path (bytes_at (fs path)) bytes)
  open_and_write-Opened create_only fs path bytes whole =
      create_new-Opened fs path bytes (fs path) whole refl

  unless_refused-Opened :
      (o : Option NodeError) (mode : WriteMode) (fs : FileSystem) (path : Text) (bytes : Bytes)
      → WritesAll
      → Opened mode fs path bytes (unless_refused host o mode fs path bytes)
  unless_refused-Opened none mode fs path bytes whole =
      open_and_write-Opened mode fs path bytes whole
  unless_refused-Opened (some e) mode fs path bytes whole = inr (e, (refl, inl refl))

  -- The outcomes of a mediated write.
  abbrev pub Outcome :
      FileWriteIntent → Option Content → FileSystem → ExecutionResult × FileSystem → Type 0
  Outcome intent content fs r =
      ((r.0.spawn_error ≡ none) × Written intent content fs r.1)
      ⊎ ((e : Text) × ((r.0.spawn_error ≡ some e) × Failed (host.resolve_path intent.path) fs r.1))

  refused-Outcome :
      (intent : FileWriteIntent) (content : Option Content) (fs : FileSystem) (executable e : Text)
      → Outcome intent content fs
          (file_result host executable started_at finished_at (some e) [], fs)
  unfolding file_result
  refused-Outcome intent content fs executable e = inr (e, (refl, inl refl))

  after_write-Outcome :
      (intent : FileWriteIntent) (content : Content) (fs : FileSystem)
      (p : Option NodeError × FileSystem)
      → length (normalize_content host content) ≡ intent.content_size_bytes
      → host.codecs.sha256_hex (normalize_content host content)
        ≡ host.to_lower_case intent.content_hash
      → validate_path_safety host fs (host.resolve_path intent.path) false ≡ none
      → Opened intent.mode fs (host.resolve_path intent.path) (normalize_content host content) p
      → Outcome intent (some content) fs (
          after_write host started_at finished_at
            (host.resolve_path intent.path)
            (normalize_content host content)
            p)
  unfolding file_result
  after_write-Outcome intent content fs (none, after) size hash safe (inl (fresh, (done, behind))) =
      inl (
        refl,
        record {
          bytes = normalize_content host content;
          given = (content, (refl, refl));
          size = size;
          hash = hash;
          safe = validate_path_safety-IsSafe host fs (host.resolve_path intent.path) safe;
          fresh = fresh;
          behind = λ q same. ap (λ f. f q) behind ∙ rw same refl;
          others = λ q apart. ap (λ f. f q) behind ∙ rw apart refl;
        },
      )
  after_write-Outcome intent content fs (some x, after) size hash safe
        (inl (fresh, (done, behind))) =
      cc
  after_write-Outcome intent content fs (none, after) size hash safe (inr (e, (failed, left))) = cc
  after_write-Outcome intent content fs (some x, after) size hash safe (inr (e, (failed, left))) =
      inr (_, (refl, left))

  write_if_safe-Outcome :
      (intent : FileWriteIntent) (content : Content) (fs : FileSystem) (o : Option Text)
      → WritesAll
      → length (normalize_content host content) ≡ intent.content_size_bytes
      → host.codecs.sha256_hex (normalize_content host content)
        ≡ host.to_lower_case intent.content_hash
      → validate_path_safety host fs (host.resolve_path intent.path) false ≡ o
      → Outcome intent (some content) fs (
          write_if_safe host started_at finished_at intent
            (host.resolve_path intent.path)
            (normalize_content host content)
            fs
            o)
  unfolding perform_write
  write_if_safe-Outcome intent content fs (some refusal) whole size hash safe =
      refused-Outcome intent (some content) fs write_executable refusal
  write_if_safe-Outcome intent content fs none whole size hash safe =
      after_write-Outcome intent content fs _ size hash safe (
        unless_refused-Opened (host.open_error (host.resolve_path intent.path)) intent.mode fs
          (host.resolve_path intent.path) (normalize_content host content) whole)

  -- A mediated write, where one call writes all bytes, has one of two outcomes. Either it reports no error,
  -- and then the content has the declared size and hash; the parent was a directory and no link, and at the
  -- path there was a regular file or nothing, in the mode create_only nothing; every path that names the file
  -- holds the bytes, behind the old ones in the mode append; and no path of another file has changed. Or it
  -- reports an error, and then nothing has changed, but for the file of a write that a fault of the disk
  -- broke off. Links above the parent are not looked at.
  pub mediate_file_write-Outcome :
      (intent : FileWriteIntent) (content : Option Content) (fs : FileSystem)
      → WritesAll
      → Outcome intent content fs (mediate_file_write host started_at finished_at intent content fs)
  unfolding mediate_file_write
  mediate_file_write-Outcome intent none fs whole =
      refused-Outcome intent none fs write_executable _
  mediate_file_write-Outcome intent (some c) fs whole =
      let bytes = normalize_content host c in
      elim (Bool-cases (length bytes == intent.content_size_bytes)) [
        | inl size ↦
            elim (Bool-cases
              (text_eq (host.codecs.sha256_hex bytes) (host.to_lower_case intent.content_hash))) [
                | inl hash ↦
                    rw (size, hash)
                      (write_if_safe-Outcome intent c fs
                        (validate_path_safety host fs (host.resolve_path intent.path) false) whole
                        ((==_iff _ _).0 size) ((text_eq_iff _ _).0 hash) refl)
                | inr other ↦
                    rw (size, other) (refused-Outcome intent (some c) fs write_executable _)
              ]
        | inr other ↦ rw other (refused-Outcome intent (some c) fs write_executable _)
      ]
