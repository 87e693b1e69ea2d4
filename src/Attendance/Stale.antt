-- ===== src/Attendance/Stale.antt =====
-- A client that missed an edit cannot overwrite it.
use mathlib.Core.Path.{subst}
use schapp.Base.{
  ℕ, ◌+◌, ◌<◌, ◌≡◌, ◌≢◌, ◌⊎◌, inl, inr, refl, true, some, List, [], ◌∷◌, ◌++◌, arith, Bool-cases,
  Option-cases, list_cases,
}
use schapp.Db.{Result, ok, err}
use schapp.Db.Rules.{Result-cases}
use schapp.Bulk.{BulkOutcome, atomic_bulk, close_batch, start}
use schapp.Attendance.{
  StudentAttendance, Register, Sheet, AttendanceRow, MarkCode, AttendanceError, find_row,
  create_row, get_existing, existing_key, mark_row, mark_rows, mark_bulk, is_stale, is_outside,
  status_of, new_row, after_create,
}
use schapp.Attendance.Versions.{Bumped, mark_row-Bumped}

-- The run failed, or some row did.
abbrev pub HasErrors : Result AttendanceError (BulkOutcome MarkCode) → Type 0
HasErrors (err e) = Unit
HasErrors (ok o) = o.errors ≢ []

append-ne : {A : Type 0} (xs : List A) (x : A) → (xs ++ x ∷ []) ≢ []
append-ne [] x h = cc
append-ne (y ∷ ys) x h = cc

after_create-HasErrors :
    (p : Result AttendanceError (Unit {0}) × Register) (o : BulkOutcome MarkCode)
    → o.errors ≢ []
    → HasErrors (after_create p o).0
after_create-HasErrors (err e, s) o h = tt
after_create-HasErrors (ok u, s) o h = h

-- No row takes an error back.
mark_row-HasErrors :
    (now : ℕ) (sheet : Sheet) (fetched : List StudentAttendance) (index : ℕ) (row : AttendanceRow)
    (o : BulkOutcome MarkCode) (s : Register)
    → o.errors ≢ []
    → HasErrors (mark_row now sheet fetched index row o s).0
unfolding mark_row
mark_row-HasErrors now sheet fetched index row o s h =
    elim (Bool-cases (is_outside sheet.allowed_student_ids row.student_id)) [
      | inl out ↦ rw out (append-ne o.errors _)
      | inr in_class ↦ elim (Option-cases (status_of row.status)) [
        | inl bad ↦ rw (in_class, bad) (append-ne o.errors _)
        | inr (status, good) ↦
            elim (Option-cases (get_existing sheet fetched row.student_id s.rows)) [
              | inl absent ↦
                  rw (in_class, good, absent)
                    (after_create-HasErrors (create_row (new_row now sheet row status) s) o h)
              | inr (r, found) ↦ elim (Bool-cases (is_stale row.version r.version)) [
                | inl stale ↦ rw (in_class, good, found, stale) (append-ne o.errors _)
                | inr fresh ↦ rw (in_class, good, found, fresh) h
              ]
            ]
      ]
    ]

mark_rows-HasErrors :
    (now : ℕ) (sheet : Sheet) (fetched : List StudentAttendance) (index : ℕ)
    (rows : List AttendanceRow) (o : BulkOutcome MarkCode) (s : Register)
    → o.errors ≢ []
    → HasErrors (mark_rows now sheet fetched index rows o s).0
unfolding mark_rows
mark_rows-HasErrors now sheet fetched index [] o s h = h
mark_rows-HasErrors now sheet fetched index (row ∷ rows) o s h =
    let one = mark_row now sheet fetched index row o s in
    let first = mark_row-HasErrors now sheet fetched index row o s h in
    elim (Result-cases one.0) [
      | inl (e, failed) ↦ rw failed tt
      | inr (o', went) ↦ rw went (
          mark_rows-HasErrors now sheet fetched (index + 1) rows o' one.1
            (subst HasErrors went first))
    ]

-- A row that was read before the version that the table has now.
pub record IsBehind (sheet : Sheet) (fetched rows : List StudentAttendance) (row : AttendanceRow)
    : Type 0 where
  pub seen : ℕ
  pub key : ℕ
  pub now_there : StudentAttendance
  pub version_sent : row.version ≡ some seen
  pub key_known : existing_key sheet row.student_id fetched ≡ some key
  pub row_there : find_row key rows ≡ some now_there
  pub behind : seen < now_there.version

Bumped-IsBehind :
    (sheet : Sheet) (fetched a b : List StudentAttendance) (row : AttendanceRow)
    → Bumped a b
    → IsBehind sheet fetched a row
    → IsBehind sheet fetched b row
Bumped-IsBehind sheet fetched a b row up h =
    let next = up h.key h.now_there h.row_there in
    record {
      seen = h.seen;
      key = h.key;
      now_there = next.0;
      version_sent = h.version_sent;
      key_known = h.key_known;
      row_there = next.1;
      behind = elim (next.2) [ inl e ↦ rw e h.behind | inr l ↦ omega (arith, h.behind) ];
    }

mark_row-behind :
    (now : ℕ) (sheet : Sheet) (fetched : List StudentAttendance) (index : ℕ) (row : AttendanceRow)
    (o : BulkOutcome MarkCode) (s : Register)
    → IsBehind sheet fetched s.rows row
    → HasErrors (mark_row now sheet fetched index row o s).0
unfolding mark_row get_existing
mark_row-behind now sheet fetched index row o s h =
    elim (Bool-cases (is_outside sheet.allowed_student_ids row.student_id)) [
      | inl out ↦ rw out (append-ne o.errors _)
      | inr in_class ↦ elim (Option-cases (status_of row.status)) [
        | inl bad ↦ rw (in_class, bad) (append-ne o.errors _)
        | inr (status, good) ↦
            let late : is_stale (some h.seen) h.now_there.version ≡ true =
              ground (arith, h.behind) in
            rw (in_class, good, h.key_known, h.row_there, h.version_sent, late)
              (append-ne o.errors _)
      ]
    ]

-- Some row of the request is behind.
abbrev pub AnyBehind :
    Sheet → List StudentAttendance → List StudentAttendance → List AttendanceRow → Type 0
AnyBehind sheet fetched rows [] = ⊥
AnyBehind sheet fetched rows (row ∷ rest) =
    IsBehind sheet fetched rows row ⊎ AnyBehind sheet fetched rows rest

Bumped-AnyBehind :
    (sheet : Sheet) (fetched a b : List StudentAttendance) (rest : List AttendanceRow)
    → Bumped a b
    → AnyBehind sheet fetched a rest
    → AnyBehind sheet fetched b rest
Bumped-AnyBehind sheet fetched a b [] up h = h
Bumped-AnyBehind sheet fetched a b (row ∷ rest) up (inl h) =
    inl (Bumped-IsBehind sheet fetched a b row up h)
Bumped-AnyBehind sheet fetched a b (row ∷ rest) up (inr h) =
    inr (Bumped-AnyBehind sheet fetched a b rest up h)

mark_rows-behind :
    (now : ℕ) (sheet : Sheet) (fetched : List StudentAttendance) (index : ℕ)
    (rows : List AttendanceRow) (o : BulkOutcome MarkCode) (s : Register)
    → AnyBehind sheet fetched s.rows rows
    → HasErrors (mark_rows now sheet fetched index rows o s).0
unfolding mark_rows
mark_rows-behind now sheet fetched index [] o s h = absurd h
mark_rows-behind now sheet fetched index (row ∷ rows) o s h =
    let one = mark_row now sheet fetched index row o s in
    elim (Result-cases one.0) [
      | inl (e, failed) ↦ rw failed tt
      | inr (o', went) ↦ rw went (elim h [
        | inl this ↦
            mark_rows-HasErrors now sheet fetched (index + 1) rows o' one.1
              (subst HasErrors went (mark_row-behind now sheet fetched index row o s this))
        | inr later ↦ mark_rows-behind now sheet fetched (index + 1) rows o' one.1 (
            Bumped-AnyBehind sheet fetched s.rows one.1.rows rows
              (mark_row-Bumped now sheet fetched index row o s) later)
      ])
    ]

close_batch-HasErrors :
    (s : Register) (r : Result AttendanceError (BulkOutcome MarkCode)) (after : Register)
    → HasErrors r
    → HasErrors (close_batch s r after).0 × ((close_batch s r after).1 ≡ s)
close_batch-HasErrors s (err e) after h = (tt, refl)
close_batch-HasErrors s (ok o) after h = elim (list_cases o.errors) [
  | inl e ↦ absurd (h e)
  | inr (x, xs, e) ↦ rw e ((λ k. cc), refl)
]

-- A request in which some row, wherever it stands, names a version below the one that the student's
-- row of the register has ends in an exception or in row errors, and the table is as it was.
pub mark_bulk-behind :
    (now : ℕ) (sheet : Sheet) (rows : List AttendanceRow) (s : Register)
    → AnyBehind sheet s.rows s.rows rows
    → HasErrors (mark_bulk now sheet rows s).0 × ((mark_bulk now sheet rows s).1 ≡ s)
unfolding mark_bulk atomic_bulk
mark_bulk-behind now sheet rows s h =
    close_batch-HasErrors s _ _ (mark_rows-behind now sheet s.rows 0 rows start s h)
