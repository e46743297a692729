-- ===== src/Cog/Policy/Lines/Steps.antt =====
-- The operations of nexus/cog/policy.py on one line.
use pharae.Base.{
  ℕ, suc, ◌+◌, ◌≤◌, Bool, true, false, some, List, [], ◌∷◌, ◌++◌, eqb, length, arith, ◌≡◌, refl,
  Option-cases, inl, inr, length-append, String,
}
use pharae.Base.Dict.{Dict}
use pharae.Schemas.{Float, Value}
use pharae.Cog.Policy.Versions.{
  PolicyVersion, Line, is_active, find_version, active_version, set_version, deprecate, make_active,
  extend_line, supersede, activate_line, rollback_line,
}
use pharae.Cog.Policy.Lines.{
  Numbered, Marked, top_of, Alternates, Known, IsLine, Marked-ext, mark, set_version-length,
  set_version-Numbered, set_version-Marked, find_version-some, find_version-Marked,
  active_version-some, active_version-none,
}

Known-length :
    (ps qs : List PolicyVersion) (stack : List ℕ)
    → length ps ≤ length qs
    → Known ps stack
    → Known qs stack
Known-length ps qs [] longer h = tt
Known-length ps qs (v ∷ stack) longer h =
    ((h.0.0, let k = h.0.1 in omega arith), Known-length ps qs stack longer h.1)

set_version-Known :
    (c : PolicyVersion) (ps : List PolicyVersion) (stack : List ℕ)
    → Known ps stack
    → Known (set_version c ps) stack
set_version-Known c ps stack h =
    Known-length ps (set_version c ps) stack (let e = set_version-length c ps in omega arith) h

tail-Alternates : (v : ℕ) (stack : List ℕ) → Alternates (v ∷ stack) → Alternates stack
tail-Alternates v [] h = tt
tail-Alternates v (w ∷ stack) h = h.1

Numbered-append :
    (n : ℕ) (ps : List PolicyVersion) (p : PolicyVersion)
    → Numbered n ps
    → p.version ≡ n + length ps + 1
    → Numbered n (ps ++ p ∷ [])
Numbered-append n [] p h e = (omega arith, tt)
Numbered-append n (q ∷ ps) p h e = (h.0, Numbered-append (suc n) ps p h.1 (omega arith))

Marked-append :
    (f : ℕ → Bool) (ps : List PolicyVersion) (p : PolicyVersion)
    → Marked f ps
    → is_active p.status ≡ f p.version
    → Marked f (ps ++ p ∷ [])
Marked-append f [] p h e = (e, tt)
Marked-append f (q ∷ ps) p h e = (h.0, Marked-append f ps p h.1 e)

top_below : (ps : List PolicyVersion) (stack : List ℕ) → Known ps stack → top_of stack ≤ length ps
top_below ps [] h = omega arith
top_below ps (v ∷ stack) h = h.0.1

pub extend_line-IsLine :
    (kind : String) (payload : Dict Value) (reason : String) (time : Float) (line : Line)
    → IsLine line
    → IsLine (extend_line kind payload reason time line).1
unfolding extend_line
extend_line-IsLine kind payload reason time line h =
    let top = top_below line.versions line.stack h.known in
    let added = (extend_line kind payload reason time line).0 in
    record {
      numbered = Numbered-append 0 line.versions added h.numbered (omega arith);
      known =
          Known-length line.versions (line.versions ++ added ∷ []) line.stack
            (let e = length-append line.versions (added ∷ []) in omega arith) h.known;
      alternates = h.alternates;
      current =
          Marked-append (λ v. eqb v (top_of line.stack)) line.versions added h.current
            (ground arith);
    }

-- Nothing is active when the current version was superseded.
supersede-Marked :
    (v : ℕ) (line : Line)
    → IsLine line
    → Marked (λ w. false) (supersede v (active_version line.versions) line).versions
unfolding supersede
supersede-Marked v line h = elim (Option-cases (active_version line.versions)) [
  | inl nothing ↦
      rw nothing
        (active_version-none (λ w. eqb w (top_of line.stack)) line.versions h.current nothing)
  | inr (c, is) ↦
      let at = active_version-some (λ w. eqb w (top_of line.stack)) line.versions h.current is in
      rw is (
        Marked-ext (mark c.version false (λ w. eqb w (top_of line.stack))) (λ w. false) _
          (λ w. ground arith)
          (set_version-Marked 0 (λ w. eqb w (top_of line.stack)) (deprecate _ c) line.versions
            h.numbered h.current))
]

supersede-Numbered :
    (v : ℕ) (line : Line)
    → IsLine line
    → Numbered 0 (supersede v (active_version line.versions) line).versions
unfolding supersede
supersede-Numbered v line h = elim (Option-cases (active_version line.versions)) [
  | inl nothing ↦ rw nothing h.numbered
  | inr (c, is) ↦ rw is (set_version-Numbered 0 (deprecate _ c) line.versions h.numbered)
]

supersede-length :
    (v : ℕ) (line : Line)
    → length (supersede v (active_version line.versions) line).versions ≡ length line.versions
unfolding supersede
supersede-length v line = elim (Option-cases (active_version line.versions)) [
  | inl nothing ↦ rw nothing refl
  | inr (c, is) ↦ rw is (set_version-length (deprecate _ c) line.versions)
]

fresh_top :
    (v : ℕ) (stack : List ℕ)
    → eqb v (top_of stack) ≡ false
    → Alternates stack
    → Alternates (v ∷ stack)
fresh_top v [] other h = tt
fresh_top v (w ∷ stack) other h = (ground arith, h)

pub activate_line-IsLine :
    (v : ℕ) (p : PolicyVersion) (line : Line)
    → IsLine line
    → find_version v line.versions ≡ some p
    → is_active p.status ≡ false
    → IsLine (activate_line p line)
unfolding activate_line
activate_line-IsLine v p line h found idle =
    let number = find_version-some v line.versions found in
    let cleared = supersede p.version (active_version line.versions) line in
    let (low, high, marked) =
      find_version-Marked 0 v (λ w. eqb w (top_of line.stack)) line.versions h.numbered h.current
        found in
    let same = supersede-length p.version line in
    let kept = set_version-length (make_active p) cleared.versions in
    record {
      numbered =
          set_version-Numbered 0 (make_active p) cleared.versions
            (supersede-Numbered p.version line h);
      known = (
        (omega arith, omega arith),
        Known-length line.versions _ line.stack (omega arith) h.known,
      );
      alternates = fresh_top p.version line.stack (ground arith) h.alternates;
      current =
          Marked-ext (mark p.version true (λ w. false)) (λ w. eqb w p.version) _ (λ w. ground arith)
            (set_version-Marked 0 (λ w. false) (make_active p) cleared.versions
              (supersede-Numbered p.version line h) (supersede-Marked p.version line h));
    }

pub rollback_line-IsLine :
    (reason : String) (current restored : PolicyVersion) (top below : ℕ) (rest : List ℕ)
    (line : Line)
    → IsLine line
    → line.stack ≡ top ∷ below ∷ rest
    → current.version ≡ top
    → restored.version ≡ below
    → IsLine (rollback_line reason current restored (below ∷ rest) line)
unfolding rollback_line
rollback_line-IsLine reason current restored top below rest line h e of_top of_below =
    let gone = deprecate _ current in
    let cleared = set_version gone line.versions in
    let known : Known line.versions (top ∷ below ∷ rest) = rw e at h.known in
    let alternates : Alternates (top ∷ below ∷ rest) = rw e at h.alternates in
    let current_ : Marked (λ w. eqb w top) line.versions = rw e at h.current in
    record {
      numbered =
          set_version-Numbered 0 (make_active restored) cleared
            (set_version-Numbered 0 gone line.versions h.numbered);
      known =
          set_version-Known (make_active restored) cleared (below ∷ rest)
            (set_version-Known gone line.versions (below ∷ rest) known.1);
      alternates = tail-Alternates top (below ∷ rest) alternates;
      current =
          Marked-ext (mark restored.version true (mark current.version false (λ w. eqb w top)))
            (λ w. eqb w below) _ (λ w. ground arith)
            (set_version-Marked 0 (mark current.version false (λ w. eqb w top))
              (make_active restored) cleared (set_version-Numbered 0 gone line.versions h.numbered)
              (set_version-Marked 0 (λ w. eqb w top) gone line.versions h.numbered current_));
    }
