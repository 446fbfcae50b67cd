-- ===== src/Metadata/Waiting.antt =====
-- pkg/metadata/metadata.go: what the waits know of the node once they end.
use windows_machine_config_o.Common.{
  ℕ, zero, suc, String, ◌≡◌, inl, inr, Bool, true, false, some, lookup, has_key, Result, ok, arith,
  eq_iff, Option-cases, Result-cases,
}
use windows_machine_config_o.Metadata.{
  NodeClient, Node, Error, version_annotation, desired_version_annotation, reboot_annotation,
  value_of, poll, polls, versions_agree, no_reboot_required, wait_for_version_annotation,
  wait_for_reboot_annotation_removal,
}

module _ (c : NodeClient) where
  open c use {State, get, sleep}

  -- A poll that ends well ends in a state where the condition holds, and where what each interval keeps still does.
  poll-ok :
      (P : State → Type 0)
      → ((s : State) → P s → P (sleep s))
      → (condition : State → Result Error Bool) (n : ℕ) (s : State) → P s
      → (poll c condition n s).1 ≡ ok tt
      → P (poll c condition n s).0 × (condition (poll c condition n s).0 ≡ ok true)
  unfolding poll
  poll-ok P keeps condition zero s p e = absurd (ground (arith, e))
  poll-ok P keeps condition (suc n) s p e = elim (Result-cases (condition (sleep s))) [
    | inr (x, h) ↦ absurd (ground (arith, rw (h, poll) at e))
    | inl (true, h) ↦ rw (h, poll) (keeps s p, h)
    | inl (false, h) ↦
        rw (h, poll) (poll-ok P keeps condition n (sleep s) (keeps s p) (rw (h, poll) at e))
  ]

  -- The node of the name has the version as annotation of the key.
  unfoldable pub HasAnnotation : String → String → String → State → Type 0
  HasAnnotation key version name s =
      (node : Node) × (get name s ≡ some node) × (lookup key node.annotations ≡ some version)

  unfoldable pub IsAt : String → String → State → Type 0
  IsAt version name s =
      (node : Node) × (get name s ≡ some node)
      × (value_of version_annotation node.annotations ≡ version)

  unfoldable pub NeedsNoReboot : String → State → Type 0
  NeedsNoReboot name s =
      (node : Node) × (get name s ≡ some node)
      × (has_key reboot_annotation node.annotations ≡ false)

  versions_agree-IsAt :
      (version name : String) (s : State)
      → HasAnnotation desired_version_annotation version name s
      → versions_agree c name s ≡ ok true
      → IsAt version name s
  unfolding versions_agree HasAnnotation IsAt
  versions_agree-IsAt version name s (node, found, desired) e = (
    node,
    found,
    ground (
      arith,
      rw (found, versions_agree, desired) at e,
      eq_iff (value_of version_annotation node.annotations) version,
    ),
  )

  pub wait_for_version_annotation-IsAt :
      (version name : String)
      → ((s : State)
          → HasAnnotation desired_version_annotation version name s
          → HasAnnotation desired_version_annotation version name (sleep s))
      → (s : State) → HasAnnotation desired_version_annotation version name s
      → (wait_for_version_annotation c name s).1 ≡ ok tt
      → IsAt version name (wait_for_version_annotation c name s).0
  unfolding wait_for_version_annotation
  wait_for_version_annotation-IsAt version name keeps s p e =
      let (desired, agree) =
        poll-ok (HasAnnotation desired_version_annotation version name) keeps
          (versions_agree c name) polls s p e in
      versions_agree-IsAt version name _ desired agree

  no_reboot_required-NeedsNoReboot :
      (name : String) (s : State) → no_reboot_required c name s ≡ ok true → NeedsNoReboot name s
  unfolding no_reboot_required NeedsNoReboot
  no_reboot_required-NeedsNoReboot name s e = elim (Option-cases (get name s)) [
    | inl h ↦ absurd (ground (arith, rw (h, no_reboot_required) at e))
    | inr (node, h) ↦ (node, h, ground (arith, rw (h, no_reboot_required) at e))
  ]

  pub wait_for_reboot_annotation_removal-NeedsNoReboot :
      (name : String) (s : State)
      → (wait_for_reboot_annotation_removal c name s).1 ≡ ok tt
      → NeedsNoReboot name (wait_for_reboot_annotation_removal c name s).0
  unfolding wait_for_reboot_annotation_removal
  wait_for_reboot_annotation_removal-NeedsNoReboot name s e =
      no_reboot_required-NeedsNoReboot name _
        (poll-ok (λ _. Unit {0}) (λ _ _. tt) (no_reboot_required c name) polls s tt e).1
