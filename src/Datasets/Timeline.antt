-- ===== src/Datasets/Timeline.antt =====
-- datasets/models.py: the checks of the sessions of the labels. Of a row of the labels the sessions
-- and the target are kept, its returns are left out.
use Prim.Native.String
use spy_market_agent.Prelude.{
  ℕ, String, not, List, [], ◌∷◌, map, ltb, ◌==◌, Error, Result, ok, raise_if, ◌>>◌, drop,
}
use spy_market_agent.Prelude.Sessions.{repeats, is_sorted}

pub record LabelRow : Type 0 where
  pub session : ℕ
  pub entry_session : ℕ
  pub exit_session : ℕ
  pub target : ℕ

abbrev pub sessions : List LabelRow → List ℕ
sessions rows = map (λ (r : LabelRow). r.session) rows

abbrev pub entry_sessions : List LabelRow → List ℕ
entry_sessions rows = map (λ (r : LabelRow). r.entry_session) rows

abbrev pub exit_sessions : List LabelRow → List ℕ
exit_sessions rows = map (λ (r : LabelRow). r.exit_session) rows

-- f"{prefix}{code}"
abbrev pub prefixed : String → String → String
prefixed prefix code = String.◌++◌ prefix code

unfoldable pub validate_strictly_increasing_sessions :
    (String → Error) → List ℕ → String → String → Result (Unit {0})
validate_strictly_increasing_sessions error_type values duplicate_code unordered_code = do
  raise_if (repeats values) (error_type duplicate_code)
  raise_if (not (is_sorted values)) (error_type unordered_code)

-- session < entry session < exit session, row by row
unfoldable pub check_rows : (String → Error) → String → List LabelRow → Result (Unit {0})
check_rows error_type prefix [] = ok tt
check_rows error_type prefix (r ∷ rows) =
    let rest = check_rows error_type prefix rows in
    do
      raise_if (not (ltb r.session r.entry_session))
          (error_type (prefixed prefix "invalid_entry_session_timeline"))
      raise_if (not (ltb r.entry_session r.exit_session))
          (error_type (prefixed prefix "invalid_exit_session_timeline"))
      rest

-- `values[index] != sessions[index + offset]`, for the indices that both have; the sessions come
-- without their first `offset`
unfoldable pub check_offset : Error → List ℕ → List ℕ → Result (Unit {0})
check_offset error (v ∷ values) (s ∷ later) =
    let rest = check_offset error values later in do raise_if (not (v == s)) error; rest
check_offset error _ _ = ok tt

abbrev pub entry_offset_sessions : ℕ
entry_offset_sessions = 1

abbrev pub exit_offset_sessions : ℕ
exit_offset_sessions = 6

unfoldable pub validate_label_timeline :
    (String → Error) → String → List LabelRow → Result (Unit {0})
validate_label_timeline error_type prefix rows = do
  validate_strictly_increasing_sessions error_type (sessions rows)
      (prefixed prefix "duplicate_label_sessions") (prefixed prefix "unordered_label_sessions")
  validate_strictly_increasing_sessions error_type (entry_sessions rows)
      (prefixed prefix "duplicate_entry_sessions") (prefixed prefix "unordered_entry_sessions")
  validate_strictly_increasing_sessions error_type (exit_sessions rows)
      (prefixed prefix "duplicate_exit_sessions") (prefixed prefix "unordered_exit_sessions")
  check_rows error_type prefix rows
  check_offset (error_type (prefixed prefix "entry_session_alignment_mismatch"))
      (entry_sessions rows) (drop entry_offset_sessions (sessions rows))
  check_offset (error_type (prefixed prefix "exit_session_alignment_mismatch")) (exit_sessions rows)
      (drop exit_offset_sessions (sessions rows))
