-- ===== src/Kernel/Sessions/Ids.antt =====
-- The ids of nexus/kernel/sessions.py.
use pharae.Base.{ℕ, ◌≡◌}
use pharae.Base.Text.{hex}
use pharae.Base.Text.Numbers.{hex_inj}
use text.Mathlib.TextLemmas.{append_cancel_left}
use pharae.Kernel.Sessions.{session_id}

-- Sessions with different numbers have different ids, also past six hexadecimal digits.
pub session_id_inj : (m n : ℕ) → session_id m ≡ session_id n → m ≡ n
unfolding session_id
session_id_inj m n e = hex_inj 6 m n (append_cancel_left "ses-" (hex 6 m) (hex 6 n) e)
