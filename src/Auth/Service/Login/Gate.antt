-- ===== src/Auth/Service/Login/Gate.antt =====
-- What a series of logins for one e-mail address is meant to do, without databases: a counter of wrong
-- passwords that locks at five and that a right one resets.
use re_master.Prelude.{ℕ, ◌+◌, Bool, List, [], ◌∷◌, leb, if◌then◌else◌}

pub data Verdict : Type 0 where
  locked refused admitted : Verdict

-- One login, from whether its password is right and the counter.
abbrev pub gate : Bool → ℕ → Verdict × ℕ
gate right count =
    if leb 5 count then (locked, count) else if right then (admitted, 0) else (refused, count + 1)

-- A series of logins.
abbrev pub gates : List Bool → ℕ → List Verdict × ℕ
gates [] count = ([], count)
gates (right ∷ rights) count =
    let (verdict, next) = gate right count in
    let (verdicts, last) = gates rights next in (verdict ∷ verdicts, last)
