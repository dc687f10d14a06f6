-- ===== src/DeviceParser/Keeps.antt =====
-- The modes of the device parser that only add, src/m_desktop.cc.
use barry.Prelude.{
  ◌≡◌, refl, ap, ◌∙◌, true, none, some, subst, sym, Bool, List, [], ◌∷◌, arith, All, Bool-cases,
  Option-cases, inl, inr,
}
use barry.RecordState
use barry.RecordState.{RecordStateTable}
use barry.CommandTable.{same_name}
use barry.DatabaseDatabase.{get_db_number}
use barry.DbPacket.{DbData}
use barry.Desktop.{World, Result, ok, threw, build_record}
use barry.Desktop.Saving.{clear_database}
use barry.Desktop.Records.{get_record_state_table}
use barry.DeviceParser.{
  mode_for, WriteMode, add_but_no_overwrite, add_with_new_id, drop_record, erase_all_write_all,
  decide_by_callback, DeviceParser, write_by, write_next, start_by, start_db, parse_record,
}
use barry.DeviceParser.Calls.{
  Keeps, world_of, add_record-OnlyKeeps, get_record_state_table-OnlyKeeps,
}

-- A mode that must not touch the records in the device.
pub data IsAdding : WriteMode → Type 0 where
  no_overwrite : IsAdding add_but_no_overwrite
  new_id : IsAdding add_with_new_id
  dropped : IsAdding drop_record

write_by-Keeps :
    (mode : WriteMode) (p : DeviceParser) (d : DbData) (w : World)
    → IsAdding mode
    → All Keeps w.sent
    → All Keeps (world_of (write_by mode p d w).1).sent
unfolding write_by
write_by-Keeps mode p d w no_overwrite h =
    elim (Option-cases (RecordState.get_index d.unique_id p.rstate.state_map)) [
      | inl e ↦
          rw (write_by, e) ((add_record-OnlyKeeps p.current_dbid (build_record d 15)).keeps w h)
      | inr (i, e) ↦ rw (write_by, e) h
    ]
write_by-Keeps mode p d w new_id h = elim (Option-cases (RecordState.make_new_record_id p.rstate)) [
  | inl e ↦ rw (write_by, e) h
  | inr (i, e) ↦
      rw (write_by, e)
        ((add_record-OnlyKeeps p.current_dbid
            (build_record (record d { unique_id = i.0 }) 15)).keeps
          w h)
]
write_by-Keeps mode p d w dropped h = h

write_next-Keeps :
    (decide : DbData → WriteMode) (p : DeviceParser) (d : DbData) (w : World)
    → IsAdding (mode_for decide p.mode d)
    → All Keeps w.sent
    → All Keeps (world_of (write_next decide p d w).1).sent
unfolding write_next
write_next-Keeps decide p d w m h = write_by-Keeps (mode_for decide p.mode d) p d w m h

-- The rest of `StartDB` once it has read the state table.
table_then :
    (decide : DbData → WriteMode) (p : DeviceParser) (d : DbData) (t : RecordStateTable)
    (r : Result Bool)
    → IsAdding (mode_for decide p.mode d)
    → All Keeps (world_of r).sent
    → All Keeps
        (world_of
          (let x : DeviceParser × Result Bool = elim r [
            | threw e v ↦ (record p { rstate = t }, threw e v)
            | ok u v ↦ write_next decide (record p { rstate = t }) d v
          ] in
            x).1).sent
table_then decide p d t (threw e v) m h = h
table_then decide p d t (ok u v) m h = write_next-Keeps decide (record p { rstate = t }) d v m h

start_by-Keeps :
    (decide : DbData → WriteMode) (mode : WriteMode) (p : DeviceParser) (d : DbData) (w : World)
    → IsAdding mode
    → IsAdding (mode_for decide p.mode d)
    → All Keeps w.sent
    → All Keeps (world_of (start_by decide mode p d w).1).sent
unfolding start_by
start_by-Keeps decide mode p d w no_overwrite m h =
    let (t, r) = get_record_state_table p.current_dbid p.rstate w in
    table_then decide p d t r m
      ((get_record_state_table-OnlyKeeps p.current_dbid p.rstate).keeps w h)
start_by-Keeps decide mode p d w new_id m h =
    let (t, r) = get_record_state_table p.current_dbid p.rstate w in
    table_then decide p d t r m
      ((get_record_state_table-OnlyKeeps p.current_dbid p.rstate).keeps w h)
start_by-Keeps decide mode p d w dropped m h = h

parse_record-Keeps :
    (decide : DbData → WriteMode) (p : DeviceParser) (d : DbData) (w : World)
    → IsAdding (mode_for decide p.mode d)
    → All Keeps w.sent
    → All Keeps (world_of (parse_record decide p d w).1).sent
unfolding parse_record start_db
parse_record-Keeps decide p d w m h = elim (Bool-cases (same_name d.db_name p.current_db)) [
  | inl same ↦ rw (parse_record, same) (write_next-Keeps decide p d w m h)
  | inr other ↦ elim (Option-cases (get_db_number d.db_name w.dbdb)) [
    | inl e ↦ rw (parse_record, other, start_db, e) h
    | inr (id, e) ↦
        rw (parse_record, other, start_db, e)
          (start_by-Keeps decide (mode_for decide p.mode d) _ d w m m h)
  ]
]

write_by-mode :
    (mode : WriteMode) (p : DeviceParser) (d : DbData) (w : World)
    → (write_by mode p d w).0.mode ≡ p.mode
unfolding write_by
write_by-mode erase_all_write_all p d w = refl
write_by-mode _ p d w = ground arith

start_by-mode :
    (decide : DbData → WriteMode) (mode : WriteMode) (p : DeviceParser) (d : DbData) (w : World)
    → (start_by decide mode p d w).0.mode ≡ p.mode
unfolding start_by write_next
start_by-mode decide drop_record p d w = refl
start_by-mode decide decide_by_callback p d w = refl
start_by-mode decide erase_all_write_all p d w = go (clear_database p.current_dbid w)
  where
    go :
        (r : Result Bool)
        → (let x : DeviceParser × Result Bool = elim r [
          | threw e v ↦ (p, threw e v)
          | ok u v ↦ write_next decide p d v
        ] in
            x).0.mode
          ≡ p.mode
    go (threw e v) = refl
    go (ok u v) = write_by-mode (mode_for decide p.mode d) p d v
start_by-mode decide _ p d w =
    let (t, r) = get_record_state_table p.current_dbid p.rstate w in go t r
  where
    go :
        (t : RecordStateTable) (r : Result Bool)
        → (let x : DeviceParser × Result Bool = elim r [
          | threw e v ↦ (record p { rstate = t }, threw e v)
          | ok u v ↦ write_next decide (record p { rstate = t }) d v
        ] in
            x).0.mode
          ≡ p.mode
    go t (threw e v) = refl
    go t (ok u v) = write_by-mode (mode_for decide p.mode d) (record p { rstate = t }) d v

parse_record-mode :
    (decide : DbData → WriteMode) (p : DeviceParser) (d : DbData) (w : World)
    → (parse_record decide p d w).0.mode ≡ p.mode
unfolding parse_record start_db write_next
parse_record-mode decide p d w = elim (Bool-cases (same_name d.db_name p.current_db)) [
  | inl same ↦ rw (parse_record, same) (write_by-mode (mode_for decide p.mode d) p d w)
  | inr other ↦ elim (Option-cases (get_db_number d.db_name w.dbdb)) [
    | inl e ↦ rw (parse_record, other, start_db, e)
    | inr (id, e) ↦
        rw (parse_record, other, start_db, e)
          (start_by-mode decide (mode_for decide p.mode d) _ d w)
  ]
]

-- A series of records, also where a call throws.
abbrev pub parse_all :
    (DbData → WriteMode) → DeviceParser → List DbData → World → DeviceParser × World
parse_all decide p [] w = (p, w)
parse_all decide p (d ∷ ds) w =
    parse_all decide (parse_record decide p d w).0 ds (world_of (parse_record decide p d w).1)

-- A series of calls of `ParseRecord` with a mode that adds without overwriting, adds under new ids,
-- or drops the record, for each record as the callback decides, sends no packet that clears a
-- database or overwrites, deletes or re-flags a record, whatever the device answers and also after
-- a call that throws.
parse_all-Keeps :
    (decide : DbData → WriteMode) (p : DeviceParser) (ds : List DbData) (w : World)
    → ((d : DbData) → IsAdding (mode_for decide p.mode d))
    → All Keeps w.sent
    → All Keeps (parse_all decide p ds w).1.sent
parse_all-Keeps decide p [] w m h = h
parse_all-Keeps decide p (d ∷ ds) w m h =
    parse_all-Keeps decide (parse_record decide p d w).0 ds (world_of (parse_record decide p d w).1)
      (λ x.
        subst (λ n. IsAdding (mode_for decide n x)) (sym (parse_record-mode decide p d w)) (m x))
      (parse_record-Keeps decide p d w (m d) h)

-- The records whose ids the table does not have.
abbrev pub new_ones : RecordStateTable → List DbData → List DbData
new_ones t [] = []
new_ones t (d ∷ ds) = elim (RecordState.get_index d.unique_id t.state_map) [
  | none ↦ d ∷ new_ones t ds
  | some index ↦ new_ones t ds
]

write_by-kept :
    (p : DeviceParser) (d : DbData) (w : World) → (write_by add_but_no_overwrite p d w).0 ≡ p
unfolding write_by
write_by-kept p d w = ground arith

parse_all_skips :
    (decide : DbData → WriteMode) (p : DeviceParser) (ds : List DbData) (w : World)
    → All (λ (d : DbData). same_name d.db_name p.current_db ≡ true) ds
    → ((d : DbData) → mode_for decide p.mode d ≡ add_but_no_overwrite)
    → parse_all decide p ds w ≡ parse_all decide p (new_ones p.rstate ds) w
unfolding parse_record write_next write_by
parse_all_skips decide p [] w same m = refl
parse_all_skips decide p (d ∷ ds) w (h, same) m =
    let by : parse_record decide p d w ≡ write_by add_but_no_overwrite p d w =
      rw (parse_record, h, write_next, m d) in
    let kept : (parse_record decide p d w).0 ≡ p = ap (λ x. x.0) by ∙ write_by-kept p d w in
    elim (Option-cases (RecordState.get_index d.unique_id p.rstate.state_map)) [
      | inl e ↦
          let v = world_of (parse_record decide p d w).1 in
          let rest = new_ones p.rstate ds in
          let left : new_ones p.rstate (d ∷ ds) ≡ d ∷ rest = rw (new_ones, e) in
          ap (λ x. parse_all decide x ds v) kept
          ∙ parse_all_skips decide p ds v same m
          ∙ ap (λ x. parse_all decide x rest v) (sym kept)
          ∙ ap (λ ls. parse_all decide p ls w) (sym left)
      | inr (i, e) ↦
          let done : parse_record decide p d w ≡ (p, ok true w) = by ∙ rw (write_by, e) in
          let left : new_ones p.rstate (d ∷ ds) ≡ new_ones p.rstate ds = rw (new_ones, e) in
          ap (λ x. parse_all decide x.0 ds (world_of x.1)) done
          ∙ parse_all_skips decide p ds w same m
          ∙ ap (λ ls. parse_all decide p ls w) (sym left)
    ]

-- A series of calls of `ParseRecord` for records of the current database, in the mode that adds
-- without overwriting, also where the callback decides so, sends no packet that clears a database
-- or overwrites, deletes or re-flags a record, whatever the device answers and also after a call
-- that throws; and it is the series of calls for those records only whose ids the record state
-- table does not have: the others cost no packet and change nothing.
pub parse_all-new_ones :
    (decide : DbData → WriteMode) (p : DeviceParser) (ds : List DbData) (w : World)
    → All (λ (d : DbData). same_name d.db_name p.current_db ≡ true) ds
    → ((d : DbData) → mode_for decide p.mode d ≡ add_but_no_overwrite)
    → All Keeps w.sent
    → All Keeps (parse_all decide p ds w).1.sent
      × (parse_all decide p ds w ≡ parse_all decide p (new_ones p.rstate ds) w)
parse_all-new_ones decide p ds w same m h = (
  parse_all-Keeps decide p ds w (λ d. subst IsAdding (sym (m d)) no_overwrite) h,
  parse_all_skips decide p ds w same m,
)
