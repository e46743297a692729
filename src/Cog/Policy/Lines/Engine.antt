-- ===== src/Cog/Policy/Lines/Engine.antt =====
-- The policy engine of nexus/cog/policy.py over the lines of all kinds.
use pharae.Base.{
  ℕ, String, true, false, Option, none, some, List, ◌∷◌, ok, eqb, arith, ◌≡◌, refl, Bool-cases,
  Option-cases, inl, inr, ◌==◌, eq_refl, ap,
}
use pharae.Base.Dict.{Dict, get_or, insert, get_or-insert}
use pharae.Base.Text.{◌⧺◌}
use mathlib.Core.Path.{subst}
use pharae.Schemas.{Value}
use pharae.Cog.Policy.{
  line_of, put_line, propose, activate, activated, rollback, roll_back_stack, roll_back_to,
  rolled_back, require_policy, note_superseded,
}
use pharae.Cog.Policy.Versions.{
  PolicyVersion, PolicyEngine, Line, no_versions, is_active, make_active, deprecate, find_version,
  active_version, set_version, activate_line, rollback_line, note_policy,
}
use pharae.Cog.Policy.Lines.{
  IsLine, Known, top_of, find_version-some, find_version-Marked, find_version-known,
  set_version-length, set_version-Numbered,
}
use pharae.Cog.Policy.Lines.Steps.{extend_line-IsLine, activate_line-IsLine, rollback_line-IsLine}

-- Every kind's versions are numbered from 1, and the top of its stack is active alone.
abbrev pub AllLines : Dict Line → Type 0
AllLines lines = (kind : String) → IsLine (get_or kind no_versions lines)

abbrev pub IsEngine : PolicyEngine → Type 0
IsEngine e = AllLines e.lines

insert-AllLines :
    (k : String) (line : Line) (lines : Dict Line)
    → AllLines lines
    → IsLine line
    → AllLines (insert k line lines)
insert-AllLines k line lines h new j =
    rw (get_or-insert k j no_versions line lines)
      (elim (Bool-cases (k == j)) [ inl same ↦ rw same new | inr other ↦ rw other (h j) ])

insert_same :
    (k : String) (line : Line) (lines : Dict Line)
    → get_or k no_versions (insert k line lines) ≡ line
insert_same k line lines = ground (arith, get_or-insert k k no_versions line lines, eq_refl k)

note_policy-lines :
    (p : PolicyVersion) (topic : String) (e : PolicyEngine)
    → (note_policy p topic e).lines ≡ e.lines
unfolding note_policy
note_policy-lines p topic e = refl

note_superseded-lines :
    (v : ℕ) (current : Option PolicyVersion) (e : PolicyEngine)
    → (note_superseded v current e).lines ≡ e.lines
note_superseded-lines v none e = refl
note_superseded-lines v (some c) e = note_policy-lines (deprecate _ c) "policy.deprecated" e

-- A proposal keeps the engine well formed.
pub propose-IsEngine :
    (kind : String) (payload : Dict Value) (reason : String) (e : PolicyEngine)
    → IsEngine e
    → IsEngine (propose kind payload reason e).1
unfolding propose note_policy
propose-IsEngine kind payload reason e h =
    insert-AllLines kind _ e.lines h
      (extend_line-IsLine kind payload reason (e.clock e.ticks) (line_of kind e) (h kind))

activated_idle :
    (kind : String) (p : PolicyVersion) (e : PolicyEngine)
    → is_active p.status ≡ false
    → ((activated kind p e).0 ≡ make_active p)
      × ((activated kind p e).1.lines ≡ insert kind (activate_line p (line_of kind e)) e.lines)
unfolding note_policy
activated_idle kind p e idle = rw idle (
  refl,
  note_superseded-lines p.version (active_version (line_of kind e).versions)
      (put_line kind (activate_line p (line_of kind e)) e),
)

-- What an activation or a rollback returns: a well formed engine, and the version that is active.
abbrev pub Installs : String → ℕ → PolicyVersion × PolicyEngine → Type 0
Installs kind version (p, e) =
    IsEngine e
    × (p.version ≡ version)
    × (is_active p.status ≡ true)
    × (top_of (line_of kind e).stack ≡ version)

-- An activation that returns keeps the engine well formed. The version that it returns is the one
-- asked for, it is active, and it is the top of its kind's stack.
pub activate-IsEngine :
    (kind : String) (version : ℕ) (e : PolicyEngine) {p : PolicyVersion} {e' : PolicyEngine}
    → IsEngine e
    → activate kind version e ≡ ok (p, e')
    → Installs kind version (p, e')
unfolding activate require_policy activate_line
activate-IsEngine kind version e {p = p} {e' = e'} h returned =
    elim (Option-cases (find_version version (line_of kind e).versions)) [
      | inl missing ↦ absurd (ground arith)
      | inr (q, found) ↦
          let result : activated kind q e ≡ (p, e') = ground arith in
          let number = find_version-some version (line_of kind e).versions found in
          let (low, high, marked) =
            find_version-Marked 0 version (λ w. eqb w (top_of (line_of kind e).stack))
              (line_of kind e).versions (h kind).numbered (h kind).current found in
          elim (Bool-cases (is_active q.status)) [
            | inl running ↦
                let same : (q, e) ≡ (p, e') = rw running at result in
                subst (Installs kind version) same (h, number, running, ground arith)
            | inr idle ↦
                let (now_active, lines) = activated_idle kind q e idle in
                let line = activate_line q (line_of kind e) in
                subst (Installs kind version) result (
                  rw lines (
                      insert-AllLines kind line e.lines h
                        (activate_line-IsLine version q (line_of kind e) (h kind) found idle)),
                  rw now_active number,
                  rw now_active refl,
                  rw lines (rw (insert_same kind line e.lines) number),
                )
          ]
    ]

rollback_returns :
    (kind reason : String) (top below : ℕ) (rest : List ℕ) (e : PolicyEngine)
    (current restored : PolicyVersion)
    → (line_of kind e).stack ≡ top ∷ below ∷ rest
    → find_version top (line_of kind e).versions ≡ some current
    → find_version below
        (set_version (deprecate ("rolled back: " ⧺ reason) current) (line_of kind e).versions)
      ≡ some restored
    → rollback kind reason e ≡ ok (rolled_back kind reason current restored (below ∷ rest) e)
unfolding rollback roll_back_stack roll_back_to require_policy
rollback_returns kind reason top below rest e current restored on_stack is_top is_below =
    rw on_stack (ground arith)

-- With two versions on the stack a rollback never raises. It takes the top off, makes the one below
-- it active, and keeps the engine well formed.
pub rollback-IsEngine :
    (kind reason : String) (top below : ℕ) (rest : List ℕ) (e : PolicyEngine)
    → IsEngine e
    → (line_of kind e).stack ≡ top ∷ below ∷ rest
    → (r : PolicyVersion × PolicyEngine) × (rollback kind reason e ≡ ok r)
      × Installs kind below r
      × ((line_of kind r.1).stack ≡ below ∷ rest)
unfolding rollback_line note_policy
rollback-IsEngine kind reason top below rest e h on_stack =
    let line = line_of kind e in
    let known : Known line.versions (top ∷ below ∷ rest) = rw on_stack at (h kind).known in
    let (current, is_top) =
      find_version-known 0 top line.versions (h kind).numbered known.0.0
        (let a = known.0.1 in omega arith) in
    let gone = deprecate ("rolled back: " ⧺ reason) current in
    let (restored, is_below) =
      find_version-known 0 below (set_version gone line.versions)
        (set_version-Numbered 0 gone line.versions (h kind).numbered) known.1.0.0
        (let a = known.1.0.1 in let b = set_version-length gone line.versions in omega arith) in
    let of_top = find_version-some top line.versions is_top in
    let of_below = find_version-some below (set_version gone line.versions) is_below in
    let left = rollback_line reason current restored (below ∷ rest) line in
    (
      rolled_back kind reason current restored (below ∷ rest) e,
      rollback_returns kind reason top below rest e current restored on_stack is_top is_below,
      (
        insert-AllLines kind left e.lines h (
            rollback_line-IsLine reason current restored top below rest line (h kind) on_stack
              of_top of_below),
        of_below,
        refl,
        ap (λ l. top_of l.stack) (insert_same kind left e.lines),
      ),
      ap (λ l. l.stack) (insert_same kind left e.lines),
    )
