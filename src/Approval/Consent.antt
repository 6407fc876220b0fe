-- ===== src/Approval/Consent.antt =====
-- What an approval takes.
use witseal.Prelude.{◌≢◌, some, ◌≡◌, ◌⊎◌, true, false, Result, ok}
use witseal.Prelude.Text.{codes}
use witseal.Schema.Approval.{ApprovalRecord, approved}
use witseal.Schema.Intent.{ClassifiedIntent}
use witseal.Schema.Policy.{PolicyDecision}
use witseal.Approval.Settings.{AtTerminal, IsListed}
use witseal.Approval.{Prompt, TerminalRead, byte, is_allowed, is_callback, is_interactive}

-- An approval that is granted.
abbrev pub Approves : Result ApprovalRecord → Type 0
Approves r = (a : ApprovalRecord) × ((r ≡ ok a) × (a.outcome ≡ approved))

-- The terminal gave a `y` or a `Y`.
abbrev pub SaysYes : TerminalRead → Type 0
SaysYes t = (t ≡ byte b'y') ⊎ (t ≡ byte b'Y')

module _ (prompt : Prompt) (intent : ClassifiedIntent) (decision : PolicyDecision) where
  abbrev TakesConsent : Type 0
  TakesConsent =
      (is_callback prompt intent decision ≡ false)
      × (((is_interactive prompt intent decision ≡ true) × SaysYes prompt.terminal)
          ⊎ ((is_interactive prompt intent decision ≡ false)
              × (is_allowed prompt intent decision decision.matched_rule ≡ true)))

  -- Without callback: at a terminal a yes, elsewhere a matched rule that the allow-list names.
  abbrev pub HasConsent : Type 0
  HasConsent =
      (prompt.env (codes "WITSEAL_APPROVAL_MODE") ≢ some (codes "callback"))
      × (((AtTerminal prompt intent decision) × SaysYes prompt.terminal)
          ⊎ ((¬ (AtTerminal prompt intent decision)) × (IsListed prompt intent decision)))
