-- ===== src/Attendance/Versions.antt =====
-- The optimistic lock of the register.
use schapp.Base.{
  ℕ, ◌+◌, ◌<◌, ◌≡◌, ◌⊎◌, inl, inr, refl, ◌∙◌, some, List, [], ◌∷◌, ◌++◌, ◌==◌, arith, Bool-cases,
  Option-cases, map_if, if◌then◌else◌, map_opt, list_cases,
}
use schapp.Db.{Result, ok, err}
use schapp.Db.Rules.{Result-cases}
use schapp.Bulk.{BulkOutcome, atomic_bulk, close_batch, start}
use schapp.Attendance.{
  StudentAttendance, Register, Sheet, AttendanceRow, MarkCode, AttendanceError, find_row,
  create_row, save_row, get_existing, mark_row, mark_rows, mark_bulk, marked, is_stale, is_outside,
  status_of, slot_taken, after_create, new_row,
}

-- Every row is still there, and it is as it was or has a higher version.
abbrev pub Bumped : List StudentAttendance → List StudentAttendance → Type 0
Bumped rows rows' =
    (k : ℕ) (r : StudentAttendance)
    → find_row k rows ≡ some r
    → (r' : StudentAttendance) × (find_row k rows' ≡ some r')
      × ((r' ≡ r) ⊎ (r.version < r'.version))

pub Bumped-refl : (rows : List StudentAttendance) → Bumped rows rows
Bumped-refl rows k r h = (r, h, inl refl)

version_trans :
    (a b c : StudentAttendance)
    → (b ≡ a) ⊎ (a.version < b.version)
    → (c ≡ b) ⊎ (b.version < c.version)
    → (c ≡ a) ⊎ (a.version < c.version)
version_trans a b c (inl e) (inl f) = inl (f ∙ e)
version_trans a b c (inl e) (inr l) = inr (rw (← e) l)
version_trans a b c (inr l) (inl f) = inr (rw f l)
version_trans a b c (inr l) (inr m) = inr (omega arith)

pub Bumped-trans : (a b c : List StudentAttendance) → Bumped a b → Bumped b c → Bumped a c
Bumped-trans a b c f g k r h =
    let first = f k r h in
    let second = g k first.0 first.1 in
    (second.0, second.1, version_trans r first.0 second.0 first.2 second.2)

pub find_row-append :
    (k : ℕ) (r n : StudentAttendance) (rows : List StudentAttendance)
    → find_row k rows ≡ some r
    → find_row k (rows ++ n ∷ []) ≡ some r
unfolding find_row
find_row-append k r n [] h = cc
find_row-append k r n (q ∷ rows) h = ground (arith, find_row-append k r n rows)

pub find_row-map_if :
    (j k : ℕ) (w : StudentAttendance → StudentAttendance) (rows : List StudentAttendance)
    → ((q : StudentAttendance) → (w q).pk ≡ q.pk)
    → find_row j (map_if (λ q. q.pk == k) w rows)
      ≡ (if j == k then map_opt w (find_row j rows) else find_row j rows)
unfolding find_row
find_row-map_if j k w [] keep = ground arith
find_row-map_if j k w (q ∷ rows) keep = ground (arith, keep q, find_row-map_if j k w rows keep)

-- A save that raises the version of the row it writes.
pub save_row-Bumped :
    (k : ℕ) (w : StudentAttendance → StudentAttendance) (s : Register)
    → ((q : StudentAttendance) → (w q).pk ≡ q.pk)
    → ((q : StudentAttendance) → q.version < (w q).version)
    → Bumped s.rows (save_row k w s).rows
unfolding save_row
save_row-Bumped k w s keep up j r h = elim (Bool-cases (j == k)) [
  | inl e ↦ (w r, find_row-map_if j k w s.rows keep ∙ rw (e, h) refl, inr (up r))
  | inr e ↦ (r, find_row-map_if j k w s.rows keep ∙ rw e h, inl refl)
]

pub create_row-Bumped :
    (build : ℕ → StudentAttendance) (s : Register) → Bumped s.rows (create_row build s).1.rows
unfolding create_row
create_row-Bumped build s =
    elim (Bool-cases (
      slot_taken (build s.next_pk).student (build s.next_pk).date (build s.next_pk).subject
        s.rows)) [
          | inl taken ↦ rw taken (Bumped-refl s.rows)
          | inr free ↦ rw free (λ k r h. (r, find_row-append k r _ s.rows h, inl refl))
        ]

after_create-state :
    (p : Result AttendanceError (Unit {0}) × Register) (outcome : BulkOutcome MarkCode)
    → (after_create p outcome).1 ≡ p.1
after_create-state (err e, s) outcome = refl
after_create-state (ok u, s) outcome = refl

pub mark_row-Bumped :
    (now : ℕ) (sheet : Sheet) (fetched : List StudentAttendance) (index : ℕ) (row : AttendanceRow)
    (outcome : BulkOutcome MarkCode) (s : Register)
    → Bumped s.rows (mark_row now sheet fetched index row outcome s).1.rows
unfolding mark_row
mark_row-Bumped now sheet fetched index row outcome s =
    elim (Bool-cases (is_outside sheet.allowed_student_ids row.student_id)) [
      | inl out ↦ rw out (Bumped-refl s.rows)
      | inr in_class ↦ elim (Option-cases (status_of row.status)) [
        | inl bad ↦ rw (in_class, bad) (Bumped-refl s.rows)
        | inr (status, good) ↦
            elim (Option-cases (get_existing sheet fetched row.student_id s.rows)) [
              | inl absent ↦
                  rw (in_class, good, absent)
                    (rw (after_create-state (create_row (new_row now sheet row status) s) outcome)
                      (create_row-Bumped (new_row now sheet row status) s))
              | inr (r, found) ↦ elim (Bool-cases (is_stale row.version r.version)) [
                | inl stale ↦ rw (in_class, good, found, stale) (Bumped-refl s.rows)
                | inr fresh ↦
                    rw (in_class, good, found, fresh)
                      (save_row-Bumped r.pk (marked sheet row status) s (λ q. refl)
                        (λ q. omega arith))
              ]
            ]
      ]
    ]

mark_rows-Bumped :
    (now : ℕ) (sheet : Sheet) (fetched : List StudentAttendance) (index : ℕ)
    (rows : List AttendanceRow) (outcome : BulkOutcome MarkCode) (s : Register)
    → Bumped s.rows (mark_rows now sheet fetched index rows outcome s).1.rows
unfolding mark_rows
mark_rows-Bumped now sheet fetched index [] outcome s = Bumped-refl s.rows
mark_rows-Bumped now sheet fetched index (row ∷ rows) outcome s =
    let one = mark_row now sheet fetched index row outcome s in
    let first = mark_row-Bumped now sheet fetched index row outcome s in
    elim (Result-cases one.0) [
      | inl (e, failed) ↦ rw failed first
      | inr (o, went) ↦ rw went (
          Bumped-trans s.rows one.1.rows _ first
            (mark_rows-Bumped now sheet fetched (index + 1) rows o one.1))
    ]

-- A batch that is taken back changes nothing.
close_batch-Bumped :
    (s : Register) (r : Result AttendanceError (BulkOutcome MarkCode)) (after : Register)
    → Bumped s.rows after.rows
    → Bumped s.rows (close_batch s r after).1.rows
close_batch-Bumped s (err e) after h = Bumped-refl s.rows
close_batch-Bumped s (ok o) after h = elim (list_cases o.errors) [
  | inl e ↦ rw e h
  | inr (x, xs, e) ↦ rw e (Bumped-refl s.rows)
]

-- Marking a register in bulk deletes no row, and every row that it changes comes out with a higher
-- version.
pub mark_bulk-Bumped :
    (now : ℕ) (sheet : Sheet) (rows : List AttendanceRow) (s : Register)
    → Bumped s.rows (mark_bulk now sheet rows s).1.rows
unfolding mark_bulk atomic_bulk
mark_bulk-Bumped now sheet rows s =
    close_batch-Bumped s _ _ (mark_rows-Bumped now sheet s.rows 0 rows start s)
