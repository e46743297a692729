-- ===== src/Kernel/Events/Patterns.antt =====
-- What a subscription pattern of the event bus matches.
use Prim.Native.Char.{Char}
use Prim.Native.String.{count}
use text.Mathlib.Text.{starts_with}
use text.Mathlib.TextEquality.{starts_with_iff}
use text.Mathlib.TextPositions.{starts_with-append}
use text.Mathlib.TextLemmas.{
  length-append, cons-append, nil-append, append_assoc, length-pos_iff,
  append-ne-nil_of_right_ne-nil, cons-ne-nil,
}
use pharae.Base.{
  ◌+◌, ◌-◌, String, ◌≡◌, refl, sym, ap, ◌∙◌, true, false, arith, ◌==◌, eq_iff, eq_refl, ltb,
  Bool-cases, inl, inr, ◌≢◌, ◌↔◌, ◌⊎◌, ◌||◌, ◌&&◌, Bool,
}
use pharae.Base.Text.{ends_with, drop_last, ◌⧺◌}
use pharae.Kernel.Events.{matches}

or_right : (a b : Bool) → b ≡ true → (a || b) ≡ true
or_right a b h = ground arith

ends_with-append : (p s : String) → ends_with (p ⧺ s) s ≡ true
unfolding ends_with
ends_with-append String.[] s = rw nil-append (self s)
  where
    self : (s : String) → ends_with s s ≡ true
    self String.[] = refl
    self (String.◌∷◌ c s) = rw (eq_refl (String.◌∷◌ c s)) refl
ends_with-append (String.◌∷◌ c p) s = rw cons-append (or_right _ _ (ends_with-append p s))

drop_last-cons :
    (c : Char) (s : String) → s ≢ "" → drop_last (String.◌∷◌ c s) ≡ String.◌∷◌ c (drop_last s)
unfolding drop_last
drop_last-cons c String.[] h = absurd (h refl)
drop_last-cons c (String.◌∷◌ d s) h = refl

drop_last-star : (p : String) → drop_last (p ⧺ ".*") ≡ p ⧺ "."
unfolding drop_last
drop_last-star String.[] = refl
drop_last-star (String.◌∷◌ c p) =
    ap drop_last (cons-append c p ".*")
    ∙ drop_last-cons c (p ⧺ ".*") (append-ne-nil_of_right_ne-nil p (cons-ne-nil _ _))
    ∙ ap (String.◌∷◌ c) (drop_last-star p)
    ∙ sym (cons-append c p ".")

ends_with_split : (s t : String) → ends_with s t ≡ true → (p : String) × (s ≡ p ⧺ t)
unfolding ends_with
ends_with_split String.[] t h = (String.[], (eq_iff String.[] t).0 h ∙ sym (nil-append t))
ends_with_split (String.◌∷◌ c s) t h = elim (Bool-cases (String.◌∷◌ c s == t)) [
  | inl same ↦ (String.[], (eq_iff (String.◌∷◌ c s) t).0 same ∙ sym (nil-append t))
  | inr other ↦
      let (p, e) = ends_with_split s t (rw other at h) in
      (String.◌∷◌ c p, rw e (sym (cons-append c p t)))
]

-- `*`, a prefix with one or more characters behind its dot, or the topic itself.
abbrev pub Covers : (pattern topic : String) → Type 0
Covers pattern topic =
    (pattern ≡ "*")
    ⊎ ((p rest : String) × (pattern ≡ p ⧺ ".*") × (topic ≡ (p ⧺ ".") ⧺ rest) × (rest ≢ ""))
    ⊎ (pattern ≡ topic)

star_matches :
    (p topic : String)
    → ((starts_with topic (drop_last (p ⧺ ".*")) && ltb (count (p ⧺ ".*") - 1) (count topic))
        ≡ true)
      ↔ ((rest : String) × (topic ≡ (p ⧺ ".") ⧺ rest) × (rest ≢ ""))
star_matches p topic = rw (drop_last-star p) (rw (length-append p ".*") (there, back))
  where
    there :
        (starts_with topic (p ⧺ ".") && ltb (count p + count ".*" - 1) (count topic)) ≡ true
        → (rest : String) × (topic ≡ (p ⧺ ".") ⧺ rest) × (rest ≢ "")
    there h =
        let begins : starts_with topic (p ⧺ ".") ≡ true = ground arith in
        let (rest, e) = (starts_with_iff topic (p ⧺ ".")).0 begins in
        let width : count topic ≡ count p + 1 + count rest =
          ap count (sym e)
          ∙ length-append (p ⧺ ".") rest
          ∙ ap (λ k. k + count rest) (length-append p ".") in
        let long : ltb (count p + 2 - 1) (count topic) ≡ true = ground arith in
        (rest, sym e, λ nothing. let empty : count rest ≡ 0 = ap count nothing in ground arith)

    back :
        ((rest : String) × (topic ≡ (p ⧺ ".") ⧺ rest) × (rest ≢ ""))
        → (starts_with topic (p ⧺ ".") && ltb (count p + count ".*" - 1) (count topic)) ≡ true
    back (rest, e, some_rest) =
        let longer = length-pos_iff.1 some_rest in
        let begins = starts_with-append (p ⧺ ".") rest in
        rw e (rw (begins, length-append (p ⧺ ".") rest, length-append p ".") (ground arith))

star_case :
    (pattern topic p : String)
    → pattern ≡ p ⧺ ".*"
    → ((starts_with topic (drop_last pattern) && ltb (count pattern - 1) (count topic)) ≡ true)
      ↔ ((rest : String) × (topic ≡ (p ⧺ ".") ⧺ rest) × (rest ≢ ""))
star_case pattern topic p e = rw e (star_matches p topic)

-- A pattern is its own instance: what stands behind its dot is the star.
own_rest : (pattern p : String) → pattern ≡ p ⧺ ".*" → pattern ≡ (p ⧺ ".") ⧺ "*"
own_rest pattern p e = e ∙ sym (append_assoc p "." "*")

star_not_empty : ◌≢◌ {A = String} "*" ""
star_not_empty = cons-ne-nil "*" ""

star_cover :
    (pattern topic p : String)
    → (pattern == "*") ≡ false
    → pattern ≡ p ⧺ ".*"
    → Covers pattern topic
    → (starts_with topic (drop_last pattern) && ltb (count pattern - 1) (count topic)) ≡ true
star_cover pattern topic p other e (inl star) =
    let bad : (pattern == "*") ≡ true = (eq_iff pattern "*").1 star in cc
star_cover pattern topic p other e (inr (inl (q, rest, e', split, some_rest))) =
    (star_case pattern topic q e').1 (rest, split, some_rest)
star_cover pattern topic p other e (inr (inr same)) =
    (star_case pattern topic p e).1 ("*", sym same ∙ own_rest pattern p e, star_not_empty)

exact_cover :
    (pattern topic : String)
    → (pattern == "*") ≡ false
    → ends_with pattern ".*" ≡ false
    → Covers pattern topic
    → (pattern == topic) ≡ true
exact_cover pattern topic other exact (inl star) =
    let bad : (pattern == "*") ≡ true = (eq_iff pattern "*").1 star in cc
exact_cover pattern topic other exact (inr (inl (p, rest, e, split, some_rest))) =
    let bad : ends_with pattern ".*" ≡ true = rw e (ends_with-append p ".*") in cc
exact_cover pattern topic other exact (inr (inr same)) = (eq_iff pattern topic).1 same

-- A pattern matches exactly the topics that it covers: `*` covers all, `p.*` covers `p.` with at
-- least one more character, and every pattern covers the topic of the same text.
pub matches-Covers :
    (pattern topic : String) → (matches pattern topic ≡ true) ↔ Covers pattern topic
unfolding matches
matches-Covers pattern topic = elim (Bool-cases (pattern == "*")) [
  | inl star ↦ rw star (λ _. inl ((eq_iff pattern "*").0 star), λ _. refl)
  | inr other ↦ rw other (elim (Bool-cases (ends_with pattern ".*")) [
    | inl prefix ↦
        let (p, e) = ends_with_split pattern ".*" prefix in
        rw prefix (
          λ h.
              let (rest, split, some_rest) = (star_case pattern topic p e).0 h in
              inr (inl (p, rest, e, split, some_rest)),
          star_cover pattern topic p other e,
        )
    | inr exact ↦
        rw exact
          (λ h. inr (inr ((eq_iff pattern topic).0 h)), exact_cover pattern topic other exact)
  ])
]
