-- ===== src/Mediate/Safe.antt =====
-- When a path is safe to write at.
use witseal.Prelude.{◌≡◌, ◌⊎◌, refl, false, Option, none, some, Option-cases, inl, inr}
use witseal.Prelude.Text.{Text}
use witseal.Capture.{Bytes}
use witseal.Mediate.{
  Entry, file, directory, link, other_entry, FileSystem, FileHost, parent_entry, target_entry,
  unless_stat_error, validate_path_safety,
}

module _ (host : FileHost) where
  -- The parent is a directory and no link, and at the path there is a regular file or nothing; neither
  -- could not be looked at.
  pub record IsSafe (fs : FileSystem) (path : Text) : Type 0 where
    pub parent_read : host.stat_error (host.dirname path) ≡ none
    pub parent : fs (host.dirname path) ≡ some directory
    pub target_read : host.stat_error path ≡ none
    pub target : (fs path ≡ none) ⊎ ((bytes : Bytes) × (fs path ≡ some (file bytes)))

  parent-safe :
      (parent : Text) (o : Option Entry) → parent_entry host parent o ≡ none → o ≡ some directory
  parent-safe parent (some directory) h = refl
  parent-safe parent none h = cc
  parent-safe parent (some link) h = cc
  parent-safe parent (some other_entry) h = cc
  parent-safe parent (some (file b)) h = cc

  target-safe :
      (path : Text) (o : Option Entry)
      → target_entry host false path o ≡ none
      → (o ≡ none) ⊎ ((bytes : Bytes) × (o ≡ some (file bytes)))
  target-safe path none h = inl refl
  target-safe path (some (file b)) h = inr (b, refl)
  target-safe path (some directory) h = cc
  target-safe path (some link) h = cc
  target-safe path (some other_entry) h = cc

  looked_at :
      (path : Text) (o : Option Text)
      → unless_stat_error host path o ≡ none
      → (host.stat_error path ≡ none) × (o ≡ none)
  looked_at path o h = elim (Option-cases (host.stat_error path)) [
    | inl read ↦ (read, rw (read, unless_stat_error) at h)
    | inr (e, failed) ↦ let no = rw (failed, unless_stat_error) at h in cc
  ]

  pub validate_path_safety-IsSafe :
      (fs : FileSystem) (path : Text)
      → validate_path_safety host fs path false ≡ none
      → IsSafe fs path
  unfolding validate_path_safety
  validate_path_safety-IsSafe fs path h =
      let parent = host.dirname path in
      let checked = unless_stat_error host parent (parent_entry host parent (fs parent)) in
      elim (Option-cases checked) [
        | inr (e, refused) ↦ let no = rw (refused, validate_path_safety) at h in cc
        | inl passed ↦
            let (parent_read, entry) =
              looked_at parent (parent_entry host parent (fs parent)) passed in
            let rest : unless_stat_error host path (target_entry host false path (fs path)) ≡ none =
              rw (passed, validate_path_safety) at h in
            let (target_read, target) =
              looked_at path (target_entry host false path (fs path)) rest in
            record {
              parent_read = parent_read;
              parent = parent-safe parent (fs parent) entry;
              target_read = target_read;
              target = target-safe path (fs path) target;
            }
      ]
