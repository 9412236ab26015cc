-- ===== src/Uploads/Filename.antt =====
-- What a sanitized name is, and which names are kept.
use defnex_mlops.Base.{
  ◌↔◌, ◌∙◌, sym, ap, ℕ, Bool, [], ◌∷◌, ◌==◌, ◌≡◌, false, ok, refl, arith, Bool-cases, inl, inr,
}
use mathlib.Core.Path.{subst}
use defnex_mlops.Validation.Gate.{ok_injective}
use defnex_mlops.Text.{Text, strip, strip-without}
use defnex_mlops.Uploads.{
  slash, backslash, has_char, to_slashes, last_component, is_unusable, sanitize_filename,
}

-- A single component of a POSIX path, also with the backslash as a second separator, that names a file
-- of the directory it is in. A drive of Windows, as in `C:x.csv`, is not excluded, here or in the code.
pub record IsComponent (s : Text) : Type 0 where
  pub no_nul : has_char 0 s ≡ false
  pub no_slash : has_char slash s ≡ false
  pub no_backslash : has_char backslash s ≡ false
  pub usable : is_unusable s ≡ false

to_slashes-no_backslash : (s : Text) → has_char backslash (to_slashes s) ≡ false
unfolding to_slashes
to_slashes-no_backslash [] = refl
to_slashes-no_backslash (c ∷ s) =
    let rest = to_slashes-no_backslash s in
    elim (Bool-cases (c == backslash)) [ inl e ↦ rw (e, rest) refl | inr e ↦ rw (e, e, rest) refl ]

to_slashes-no_nul : (s : Text) → has_char 0 s ≡ false → has_char 0 (to_slashes s) ≡ false
unfolding to_slashes
to_slashes-no_nul [] h = refl
to_slashes-no_nul (c ∷ s) h =
    let rest = to_slashes-no_nul s (ground arith) in
    let first : (c == 0) ≡ false = ground arith in
    elim (Bool-cases (c == backslash)) [
      | inl e ↦ rw (e, rest) refl
      | inr e ↦ rw (e, rest, first) refl
    ]

-- Without backslashes nothing is replaced.
to_slashes_keeps : (s : Text) → has_char backslash s ≡ false → to_slashes s ≡ s
unfolding to_slashes
to_slashes_keeps [] h = refl
to_slashes_keeps (c ∷ s) h =
    let e : (c == backslash) ≡ false = ground arith in
    let rest = to_slashes_keeps s (ground arith) in rw (e, rest) refl

last_component-no_slash : (s : Text) → has_char slash (last_component s) ≡ false
unfolding last_component
last_component-no_slash [] = refl
last_component-no_slash (c ∷ s) =
    let rest = last_component-no_slash s in
    elim (Bool-cases (has_char slash s)) [
      | inl e ↦ rw e rest
      | inr e ↦ elim (Bool-cases (c == slash)) [ inl g ↦ rw (e, g) e | inr g ↦ rw (e, g, g) e ]
    ]

last_component-without :
    (k : ℕ) (s : Text) → has_char k s ≡ false → has_char k (last_component s) ≡ false
unfolding last_component
last_component-without k [] h = refl
last_component-without k (c ∷ s) h =
    let rest = last_component-without k s (ground arith) in
    let tail : has_char k s ≡ false = ground arith in
    elim (Bool-cases (has_char slash s)) [
      | inl e ↦ rw e rest
      | inr e ↦ elim (Bool-cases (c == slash)) [ inl g ↦ rw (e, g) tail | inr g ↦ rw (e, g) h ]
    ]

last_component_keeps : (s : Text) → has_char slash s ≡ false → last_component s ≡ s
unfolding last_component
last_component_keeps [] h = refl
last_component_keeps (c ∷ s) h =
    let e : has_char slash s ≡ false = ground arith in
    let g : (c == slash) ≡ false = ground arith in rw (e, g) refl

module _ (is_space : ℕ → Bool) where
  accepted-IsComponent : (s c : Text) → sanitize_filename is_space s ≡ ok c → IsComponent c
  unfolding sanitize_filename
  accepted-IsComponent s c h = elim (Bool-cases (has_char 0 s)) [
    | inl e ↦ absurd (let h' = rw (e, sanitize_filename) at h in cc h')
    | inr e ↦
        let candidate = strip is_space (last_component (to_slashes s)) in
        elim (Bool-cases (is_unusable candidate)) [
          | inl g ↦ absurd (let h' = rw (e, g, sanitize_filename) at h in cc h')
          | inr g ↦
              let named = to_slashes s in
              let same : candidate ≡ c =
                let h' = rw (e, g, sanitize_filename) at h in ok_injective candidate c _ refl h' in
              subst IsComponent same (record {
                no_nul =
                    strip-without is_space (λ x. x == 0) (last_component named)
                      (last_component-without 0 named (to_slashes-no_nul s e));
                no_slash =
                    strip-without is_space (λ x. x == slash) (last_component named)
                      (last_component-no_slash named);
                no_backslash =
                    strip-without is_space (λ x. x == backslash) (last_component named)
                      (last_component-without backslash named (to_slashes-no_backslash s));
                usable = g;
              })
        ]
  ]

  component_kept :
      (c : Text) → IsComponent c → (sanitize_filename is_space c ≡ ok c) ↔ (strip is_space c ≡ c)
  unfolding sanitize_filename
  component_kept c h =
      let plain = to_slashes_keeps c h.no_backslash in
      let own = last_component_keeps c h.no_slash in
      (
        λ e.
            let e' = rw (h.no_nul, plain, own, sanitize_filename) at e in
            elim (Bool-cases (is_unusable (strip is_space c))) [
              | inl g ↦ absurd (let e'' = rw g at e' in cc e'')
              | inr g ↦ let e'' = rw g at e' in ok_injective (strip is_space c) c _ refl e''
            ],
        λ keeps. rw (h.no_nul, plain, own, keeps, h.usable) refl,
      )

  kept_name :
      (s c : Text)
      → sanitize_filename is_space s ≡ ok c
      → IsComponent c
      → (s ≡ c) ↔ (IsComponent s × (strip is_space s ≡ s))
  kept_name s c h component = (
    λ e.
        let own = subst IsComponent (sym e) component in
        (own, (component_kept s own).0 (h ∙ ap ok (sym e))),
    λ (own, bare). ok_injective s c _ ((component_kept s own).1 bare) h,
  )

  -- A name that is accepted is stored as a single component of a path, with `/` and the backslash as
  -- its separators; and it is stored as it was given exactly if it was such a component, without white
  -- space around it.
  pub sanitize_filename-IsComponent :
      (s c : Text)
      → sanitize_filename is_space s ≡ ok c
      → IsComponent c × ((s ≡ c) ↔ (IsComponent s × (strip is_space s ≡ s)))
  sanitize_filename-IsComponent s c h =
      let component = accepted-IsComponent s c h in (component, kept_name s c h component)
