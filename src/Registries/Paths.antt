-- ===== src/Registries/Paths.antt =====
-- What `newMirror` of pkg/registries/registries.go makes of the location of a mirror.
use Prim.Native.String.{[], ◌∷◌}
use mathlib.Core.List.{reverse-append, reverse-reverse, reverse-cons}
use windows_machine_config_o.Common.{
  String, ◌≡◌, ◌≢◌, refl, sym, ap, ◌∙◌, inl, inr, Bool, false, Option, List, [], ◌∷◌, ◌++◌, ◌==◌,
  arith, eq_iff, reverse, Bool-cases,
}
use windows_machine_config_o.Registries.{
  split, join, drop_last, drop_common, extract_mirror_url, new_mirror,
}

drop_last-append : (xs : List String) (x : String) → drop_last (xs ++ (x ∷ [])) ≡ xs
drop_last-append [] x = refl
drop_last-append (y ∷ []) x = refl
drop_last-append (y ∷ z ∷ zs) x = ap (λ l. y ∷ l) (drop_last-append (z ∷ zs) x)

drop_last-reverse : (x : String) (xs : List String) → drop_last (reverse (x ∷ xs)) ≡ reverse xs
drop_last-reverse x xs = ap drop_last (reverse-cons x xs) ∙ drop_last-append (reverse xs) x

-- Two lists of which the first items differ, if both have one.
abbrev pub Differ : List String → List String → Type 0
Differ [] ms = Unit
Differ (s ∷ ss) [] = Unit
Differ (s ∷ ss) (m ∷ ms) = s ≢ m

-- How the loop splits the two lists: what they share, and what is left of each.
drop_common-Differ :
    (ss ms : List String)
    → (shared : List String) × (left : List String) × (kept : List String) × (ss ≡ shared ++ left)
      × (ms ≡ shared ++ kept)
      × (drop_common ss ms (reverse ms) ≡ reverse kept)
      × Differ left kept
unfolding drop_common
drop_common-Differ [] ms = ([], [], ms, refl, refl, refl, tt)
drop_common-Differ (s ∷ ss) [] = ([], s ∷ ss, [], refl, refl, refl, tt)
drop_common-Differ (s ∷ ss) (m ∷ ms) = elim (Bool-cases (s == m)) [
  | inl same ↦
      let (shared, left, kept, e, e', f, d) = drop_common-Differ ss ms in
      let eq = (eq_iff s m).0 same in
      (
        m ∷ shared,
        left,
        kept,
        ap (λ h. h ∷ ss) eq ∙ ap (λ l. m ∷ l) e,
        ap (λ l. m ∷ l) e',
        rw same (ap (drop_common ss ms) (drop_last-reverse m ms) ∙ f),
        d,
      )
  | inr other ↦ ([], s ∷ ss, m ∷ ms, refl, refl, rw other refl, λ e. ground (arith, eq_iff s m))
]

-- extractMirrorURL keeps the parts of the mirror in front of the longest list of parts in which both locations end:
-- the parts of each are its own ones and the shared ones, and of their own ones the last differ, if both have one.
pub extract_mirror_url-join :
    (source mirror : String)
    → (left : List String) × (kept : List String) × (shared : List String) × (split source
        ≡ left ++ shared)
      × (split mirror ≡ kept ++ shared)
      × Differ (reverse left) (reverse kept)
      × (extract_mirror_url source mirror ≡ join kept)
unfolding extract_mirror_url
extract_mirror_url-join source mirror =
    let parts = split mirror in
    let (shared, left, kept, e, e', f, d) =
      drop_common-Differ (reverse (split source)) (reverse parts) in
    let back : drop_common (reverse (split source)) (reverse parts) parts ≡ reverse kept =
      ap (drop_common (reverse (split source)) (reverse parts)) (sym (reverse-reverse parts)) ∙ f in
    (
      reverse left,
      reverse kept,
      reverse shared,
      sym (reverse-reverse (split source)) ∙ ap reverse e ∙ reverse-append shared left,
      sym (reverse-reverse parts) ∙ ap reverse e' ∙ reverse-append shared kept,
      rw (reverse-reverse left, reverse-reverse kept) d,
      ap join back,
    )

drop_common-all : (ms rest : List String) → drop_common (ms ++ rest) ms (reverse ms) ≡ []
unfolding drop_common
drop_common-all [] [] = refl
drop_common-all [] (s ∷ ss) = refl
drop_common-all (m ∷ ms) rest =
    let later =
      ap (drop_common (ms ++ rest) ms) (drop_last-reverse m ms) ∙ drop_common-all ms rest in
    rw ((eq_iff m m).1 refl) later

-- A mirror whose parts are the last parts of a longer source gets an empty host.
pub new_mirror_empty :
    (parse_url : String → Option (String × String)) (source mirror : String) (resolve_tags : Bool)
    (left : List String)
    → source ≢ mirror
    → split source ≡ left ++ split mirror
    → (new_mirror parse_url source mirror resolve_tags).host ≡ ""
unfolding new_mirror extract_mirror_url join
new_mirror_empty parse_url source mirror resolve_tags left differ e =
    let parts = split mirror in
    let at : reverse (split source) ≡ reverse parts ++ reverse left =
      ap reverse e ∙ reverse-append left parts in
    let none_left : drop_common (reverse (split source)) (reverse parts) parts ≡ [] =
      ap (λ l. drop_common l (reverse parts) parts) at
      ∙ ap (drop_common (reverse parts ++ reverse left) (reverse parts))
          (sym (reverse-reverse parts))
      ∙ drop_common-all (reverse parts) (reverse left) in
    let unequal : (source == mirror) ≡ false = ground (arith, eq_iff source mirror) in
    rw unequal (ap join none_left)
