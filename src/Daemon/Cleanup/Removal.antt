-- ===== src/Daemon/Cleanup/Removal.antt =====
-- What `removeServices` of pkg/daemon/cleanup/cleanup.go leaves on an instance.
use mathlib.Core.List.{reverse-cons}
use windows_machine_config_o.Common.{
  String, ◌≡◌, ◌⊎◌, refl, sym, ap, ◌∙◌, inl, inr, Bool, true, false, some, List, [], ◌∷◌, ok, arith,
  Bool-cases, Option-cases, In, In-append_left, In-append_right, subst, map, reverse,
}
use windows_machine_config_o.ServicesCm.Types.{Service}
use windows_machine_config_o.Daemon.Cleanup.{
  Manager, remove_named, remove_tagged_service, remove_tagged, remove_services, contains_text,
  managed_tag,
}

-- What the service control manager documents. A deletion touches no other service, and creates none.
pub record ManagerLaws (m : Manager) : Type 0 where
  pub present : m.State → String → Bool
  pub listed :
      (s : m.State) (names : List String) (n : String)
      → m.get_services s ≡ some names
      → present s n ≡ true
      → In n names
  pub deleted :
      (k : String) (s : m.State)
      → (m.delete_service k s).1 ≡ true
      → present (m.delete_service k s).0 k ≡ false
  pub stays_absent :
      (k n : String) (s : m.State)
      → present s n ≡ false
      → present (m.delete_service k s).0 n ≡ false
  pub stays_described :
      (k n : String) (s : m.State)
      → present (m.delete_service k s).0 n ≡ true
      → m.get_description n (m.delete_service k s).0 ≡ m.get_description n s

In-reverse : (n : String) (ns : List String) → In n ns → In n (reverse ns)
In-reverse n [] i = absurd i
In-reverse n (k ∷ ks) i =
    subst (λ l. In n l) (sym (reverse-cons k ks))
      (elim i [
        | inl same ↦ In-append_right n (reverse ks) (k ∷ []) (inl same)
        | inr later ↦ In-append_left n (reverse ks) (k ∷ []) (In-reverse n ks later)
      ])

module _ (m : Manager) (laws : ManagerLaws m) where
  open m use {State, get_services, get_description, delete_service}
  open laws use {present}

  remove_named_absent :
      (n : String) (names : List String) (failed : Bool) (s : State)
      → present s n ≡ false
      → present (remove_named m names failed s).0 n ≡ false
  unfolding remove_named
  remove_named_absent n [] failed s h = h
  remove_named_absent n (k ∷ ks) failed s h =
      remove_named_absent n ks _ _ (laws.stays_absent k n s h)

  remove_named-failed : (names : List String) (s : State) → (remove_named m names true s).1 ≡ true
  unfolding remove_named
  remove_named-failed [] s = refl
  remove_named-failed (k ∷ ks) s = elim (Bool-cases (delete_service k s).1) [
    | inl e ↦ rw (e, remove_named) (remove_named-failed ks _)
    | inr e ↦ rw (e, remove_named) (remove_named-failed ks _)
  ]

  remove_named-gone :
      (names : List String) (failed : Bool) (s : State) (n : String)
      → (remove_named m names failed s).1 ≡ false
      → In n names
      → present (remove_named m names failed s).0 n ≡ false
  unfolding remove_named
  remove_named-gone [] failed s n e i = absurd i
  remove_named-gone (k ∷ ks) failed s n e i = elim i [
    | inr later ↦ remove_named-gone ks _ _ n e later
    | inl same ↦ elim (Bool-cases (delete_service k s).1) [
      | inl done ↦
          let gone : present (delete_service k s).0 n ≡ false =
            ap (present (delete_service k s).0) same ∙ laws.deleted k s done in
          remove_named_absent n ks _ _ gone
      | inr refused ↦
          let all = remove_named-failed ks (delete_service k s).0 in
          let e' : (remove_named m ks true (delete_service k s).0).1 ≡ false =
            rw (refused, remove_named) at e in
          absurd (cc (sym all ∙ e'))
    ]
  ]

  -- The state behind one round of the second loop is the old one, or that behind a deletion.
  tagged_absent :
      (k n : String) (failed : Bool) (s : State)
      → present s n ≡ false
      → present (remove_tagged_service m k failed s).0 n ≡ false
  unfolding remove_tagged_service
  tagged_absent k n failed s h = elim (Option-cases (get_description k s)) [
    | inl e ↦ rw (e, remove_tagged_service) h
    | inr (d, e) ↦ elim (Bool-cases (contains_text d managed_tag)) [
      | inl tagged ↦ rw (e, remove_tagged_service, tagged) (laws.stays_absent k n s h)
      | inr other ↦ rw (e, remove_tagged_service, other) h
    ]
  ]

  tagged_described :
      (k n : String) (failed : Bool) (s : State)
      → present (remove_tagged_service m k failed s).0 n ≡ true
      → get_description n (remove_tagged_service m k failed s).0 ≡ get_description n s
  unfolding remove_tagged_service
  tagged_described k n failed s = elim (Option-cases (get_description k s)) [
    | inl e ↦ rw (e, remove_tagged_service) (λ h. refl)
    | inr (d, e) ↦ elim (Bool-cases (contains_text d managed_tag)) [
      | inl tagged ↦ rw (e, remove_tagged_service, tagged) (laws.stays_described k n s)
      | inr other ↦ rw (e, remove_tagged_service, other) (λ h. refl)
    ]
  ]

  remove_tagged_absent :
      (n : String) (names : List String) (failed : Bool) (s : State)
      → present s n ≡ false
      → present (remove_tagged m names failed s).0 n ≡ false
  unfolding remove_tagged
  remove_tagged_absent n [] failed s h = h
  remove_tagged_absent n (k ∷ ks) failed s h =
      remove_tagged_absent n ks _ _ (tagged_absent k n failed s h)

  still_present :
      (n : String) (names : List String) (failed : Bool) (s : State)
      → present (remove_tagged m names failed s).0 n ≡ true
      → present s n ≡ true
  still_present n names failed s h = elim (Bool-cases (present s n)) [
    | inl e ↦ e
    | inr e ↦ absurd (cc (sym (remove_tagged_absent n names failed s e) ∙ h))
  ]

  remove_tagged_described :
      (n : String) (names : List String) (failed : Bool) (s : State)
      → present (remove_tagged m names failed s).0 n ≡ true
      → get_description n (remove_tagged m names failed s).0 ≡ get_description n s
  unfolding remove_tagged
  remove_tagged_described n [] failed s h = refl
  remove_tagged_described n (k ∷ ks) failed s h =
      remove_tagged_described n ks _ _ h ∙ tagged_described k n failed s (still_present n ks _ _ h)

  tagged_failed : (k : String) (s : State) → (remove_tagged_service m k true s).1 ≡ true
  unfolding remove_tagged_service
  tagged_failed k s = elim (Option-cases (get_description k s)) [
    | inl e ↦ rw (e, remove_tagged_service) refl
    | inr (d, e) ↦ elim (Bool-cases (contains_text d managed_tag)) [
      | inr other ↦ rw (e, remove_tagged_service, other) refl
      | inl tagged ↦ elim (Bool-cases (delete_service k s).1) [
        | inl done ↦ rw (e, remove_tagged_service, tagged, done) refl
        | inr refused ↦ rw (e, remove_tagged_service, tagged, refused) refl
      ]
    ]
  ]

  remove_tagged-failed : (names : List String) (s : State) → (remove_tagged m names true s).1 ≡ true
  unfolding remove_tagged
  remove_tagged-failed [] s = refl
  remove_tagged-failed (k ∷ ks) s =
      ap (λ f. (remove_tagged m ks f (remove_tagged_service m k true s).0).1) (tagged_failed k s)
      ∙ remove_tagged-failed ks (remove_tagged_service m k true s).0

  -- A round at a service with the tag: it is gone, or the failure is noted.
  tagged_gone :
      (k d : String) (failed : Bool) (s : State)
      → get_description k s ≡ some d
      → contains_text d managed_tag ≡ true
      → ((remove_tagged_service m k failed s).1 ≡ true)
        ⊎ (present (remove_tagged_service m k failed s).0 k ≡ false)
  unfolding remove_tagged_service
  tagged_gone k d failed s e tagged = elim (Bool-cases (delete_service k s).1) [
    | inl done ↦ inr (rw (e, remove_tagged_service, tagged) (laws.deleted k s done))
    | inr refused ↦ inl (rw (e, remove_tagged_service, tagged, refused) refl)
  ]

  remove_tagged-gone :
      (names : List String) (failed : Bool) (s : State) (n d : String)
      → (remove_tagged m names failed s).1 ≡ false
      → In n names
      → get_description n (remove_tagged m names failed s).0 ≡ some d
      → contains_text d managed_tag ≡ true
      → present (remove_tagged m names failed s).0 n ≡ false
  unfolding remove_tagged
  remove_tagged-gone [] failed s n d e i described tagged = absurd i
  remove_tagged-gone (k ∷ ks) failed s n d e i described tagged =
      let t = (remove_tagged_service m k failed s).0 in
      let failed' = (remove_tagged_service m k failed s).1 in
      elim i [
        | inr later ↦ remove_tagged-gone ks failed' t n d e later described tagged
        | inl same ↦ elim (Bool-cases (present (remove_tagged m ks failed' t).0 n)) [
          | inr gone ↦ gone
          | inl left ↦
              let at = remove_tagged_described n (k ∷ ks) failed s left in
              let here : get_description k s ≡ some d =
                ap (λ x. get_description x s) (sym same) ∙ sym at ∙ described in
              elim (tagged_gone k d failed s here tagged) [
                | inl noted ↦
                    let all =
                      ap (λ f. (remove_tagged m ks f t).1) noted ∙ remove_tagged-failed ks t in
                    absurd (cc (sym all ∙ e))
                | inr gone ↦
                    let gone' : present t n ≡ false = ap (present t) same ∙ gone in
                    remove_tagged_absent n ks failed' t gone'
              ]
        ]
      ]

  -- If removeServices reports no error, none of the given services is left.
  pub remove_services-gone :
      (services : List Service) (remove_all_tagged : Bool) (s : State) (n : String)
      → (remove_services m services remove_all_tagged s).1 ≡ ok tt
      → In n (map (λ v. v.name) services)
      → present (remove_services m services remove_all_tagged s).0 n ≡ false
  unfolding remove_services
  remove_services-gone services true s n e i =
      let names = reverse (map (λ v. v.name) services) in
      let done = remove_named m names false s in
      elim (Option-cases (get_services done.0)) [
        | inl h ↦ absurd (ground arith)
        | inr (existing, h) ↦ elim (Bool-cases done.1) [
          | inl failed ↦
              let all =
                ap (λ f. (remove_tagged m existing f done.0).1) failed
                ∙ remove_tagged-failed existing done.0 in
              absurd (ground (arith, all))
          | inr fine ↦
              let gone = remove_named-gone names false s n fine (In-reverse n _ i) in
              rw (h, remove_services) (remove_tagged_absent n existing done.1 done.0 gone)
        ]
      ]
  remove_services-gone services false s n e i =
      let names = reverse (map (λ v. v.name) services) in
      remove_named-gone names false s n (ground arith) (In-reverse n _ i)

  -- If removeServices reports no error and was to remove all tagged services, then the description of
  -- a service that is left, where it can be read, does not have the tag.
  remove_services-contains_text :
      (services : List Service) (s : State) (n d : String)
      → (remove_services m services true s).1 ≡ ok tt
      → present (remove_services m services true s).0 n ≡ true
      → get_description n (remove_services m services true s).0 ≡ some d
      → contains_text d managed_tag ≡ false
  unfolding remove_services
  remove_services-contains_text services s n d e left described =
      let done = remove_named m (reverse (map (λ v. v.name) services)) false s in
      elim (Option-cases (get_services done.0)) [
        | inl h ↦ absurd (ground arith)
        | inr (existing, h) ↦
            let last = remove_tagged m existing done.1 done.0 in
            let fine : last.1 ≡ false = ground arith in
            let described' : get_description n last.0 ≡ some d =
              rw (h, remove_services) at described in
            let left' : present last.0 n ≡ true = rw (h, remove_services) at left in
            let i =
              laws.listed done.0 existing n h (still_present n existing done.1 done.0 left') in
            elim (Bool-cases (contains_text d managed_tag)) [
              | inr clean ↦ clean
              | inl tagged ↦ absurd (
                  cc (
                    sym (remove_tagged-gone existing done.1 done.0 n d fine i described' tagged)
                    ∙ left'))
            ]
      ]
