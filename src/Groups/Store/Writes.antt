-- ===== src/Groups/Store/Writes.antt =====
-- What changes the group store: store.rs, the writes of `Groups`. A write reads the tables, and its
-- transaction begins later: `seen` are the tables that it read, and `t` those that the transaction
-- finds, which another process may have written to in between. An error leaves `t` as it is.
use p2parchiver.Common.{
  ℕ, ◌+◌, ◌-◌, min, Bool, false, not, ◌&&◌, Option, none, some, List, [], ◌∷◌, ltb, if◌then◌else◌,
  is_some, length, take, drop,
}
use p2parchiver.Common.Bytes.{Bytes, bytes_eq}
use p2parchiver.Common.Result.{Result, ok, err, ◌>>=◌, ◌>>◌, fail_if, ok_or}
use p2parchiver.Common.Int.{ℤ}
use p2parchiver.Platform.{Platform, PeerId, Cbor}
use p2parchiver.Common.Keyed
use p2parchiver.Common.Keyed.{Keyed}
use p2parchiver.Groups.Id.{GroupId, EntryHash, of_body, zeros}
use p2parchiver.Groups.Chain.Types.{Entry, EntryBody, Op, ChainError, hash}
use p2parchiver.Groups.Chain.{
  Chain, load, extend, author, create, fold, head, len, name, entries, hash_at,
}
use p2parchiver.Groups.Standing.{
  Standing, StandingBody, StandingSet, StandingError, Position, unanswered, «in», out, is_departure,
  next_seq, Held,
}
use p2parchiver.Groups.Standing
use p2parchiver.Groups.Members
use p2parchiver.Groups.Members.{Members, Member}
use p2parchiver.Groups.Sync.Wire.{GroupRow, Applied, State, StoreError, pending, active, left}
use p2parchiver.Groups.Store.Tables
use p2parchiver.Groups.Store.Tables.{Tables, GroupRecord, StandingRow}
use p2parchiver.Groups.Store.Reads.{require, chain, my_standing_seq, chain_error, standing_error}
use p2parchiver.Groups.Store.Intake.{Intake, take_standings}

-- The hash of the row `groups` has before its head is set.
abbrev pub new_row : (X : Platform) → GroupId → Bytes → PeerId → State → ℤ → GroupRow
new_row X id name admin state at = record {
  id = id;
  name = name;
  admin = admin;
  state = state;
  head_seq = 0;
  head_hash = of_body X [];
  standings_digest = zeros 32;
  first_seen = at;
  last_synced = at;
}

-- The state that goes with the position a node takes.
abbrev pub state_for : Position → State
state_for unanswered = pending
state_for «in» = active
state_for out = left

-- `diff`: who is in the first and not in the second.
abbrev pub diff : Members → Members → List PeerId
diff [] b = []
diff ((p, m) ∷ a) b =
    let rest = diff a b in if Members.contains b m.peer then rest else m.peer ∷ rest

module _ (X : Platform) (ecbor : Cbor EntryBody) (scbor : Cbor StandingBody) (me : PeerId) where
  -- The insertion of a new group and its entries, as in `create` and `adopt`.
  unfoldable pub insert_group : Chain → State → ℤ → Tables → Tables
  insert_group c state at t =
      let row = new_row X c.id (name c) c.admin state at in
      let t1 = record t { groups = Keyed.put c.id (record { row = row; news = 0 }) t.groups } in
      (Tables.set_head c.id 0 (len c) (head c) (Tables.write_entries c.id 0 (entries c) t1)).0

  abbrev pub create_rows : Chain → Standing → StandingBody → ℤ → Tables → Tables
  create_rows c s body at t =
      let held : Held = record {
        standing = s;
        seq = body.seq;
        position = body.position;
        username = body.username;
      } in
      let row : StandingRow = record { seq = body.seq; position = body.position; standing = s } in
      Tables.rebuild_caches X scbor c.id c (Standing.insert c.admin held []).0
        (Tables.write_standing c.id c.admin row (insert_group c active at t))

  abbrev pub or_keep :
      {A : Type 0} → Tables → Result StoreError (Tables × A) → Tables × Result StoreError A
  or_keep t (ok (t', a)) = (t', ok a)
  or_keep t (err e) = (t, err e)

  -- `Groups::create`, with the random nonce, or none when there is no entropy.
  unfoldable pub create_group :
      Tables → X.Keypair → Option Bytes → Bytes → Bytes → ℤ → Tables × Result StoreError GroupId
  create_group t key nonce name username at = or_keep t (do
    n ← ok_or nonce StoreError.entropy
    c ← chain_error (create X ecbor key name n at)
    fail_if (is_some (Tables.get t c.id)) (StoreError.duplicate c.id)
    s ← standing_error (Standing.author X scbor key c.id (next_seq none) «in» username at)
    body ← standing_error (Standing.verify X scbor s c.id)
    ok (create_rows c s body at t, c.id))

  abbrev pub same_hash : EntryHash → Option EntryHash → Bool
  same_hash h none = false
  same_hash h (some k) = bytes_eq k h

  -- The first entry of the overlap that is not ours.
  unfoldable pub diverges : Chain → ℕ → List Entry → Option ℕ
  diverges c seq [] = none
  diverges c seq (e ∷ es) =
      let rest = diverges c (seq + 1) es in
      if same_hash (hash X ecbor e) (hash_at c seq) then rest else some seq

  abbrev pub fail_at : GroupId → Option ℕ → Result StoreError (Unit {0})
  fail_at g none = ok tt
  fail_at g (some seq) = err (StoreError.diverged g seq)

  abbrev pub grown : Chain × Result ChainError ℕ → Result StoreError (Chain × ℕ)
  grown (c, ok n) = ok (c, n)
  grown (c, err e) = err (StoreError.chain e)

  -- `if fresh.is_empty() { 0 } else { chain.extend(fresh)? }`
  abbrev pub extend_by : Chain → List Entry → Result StoreError (Chain × ℕ)
  extend_by c [] = ok (c, 0)
  extend_by c (e ∷ es) = grown (extend X ecbor c (e ∷ es))

  -- Another writer's head is an error.
  abbrev pub moved_or_raced : GroupId → Tables × Bool → Result StoreError Tables
  moved_or_raced g (t, changed) = fail_if (not changed) (StoreError.raced g) >> ok t

  -- `write_entries` and `set_head` when entries were accepted.
  abbrev pub write_head : GroupId → ℕ → Chain → List Entry → ℕ → Tables → Result StoreError Tables
  write_head g head_seq c fresh accepted t =
      if ltb 0 accepted
      then moved_or_raced g
          (Tables.set_head g head_seq (len c) (head c) (Tables.write_entries g head_seq fresh t))
      else ok t

  abbrev pub applied : Chain → Chain → ℕ → List PeerId → Applied
  applied c d accepted departed = record {
    accepted = accepted;
    head_seq = len d;
    added = diff (fold X d) (fold X c);
    removed = diff (fold X c) (fold X d);
    we_joined = not (Members.contains (fold X c) me) && Members.contains (fold X d) me;
    we_lost = Members.contains (fold X c) me && not (Members.contains (fold X d) me);
    departed = departed;
  }

  -- The rest of the transaction of `put`: standings, caches, name and time.
  unfoldable pub finish_put :
      GroupId → Chain → Chain → ℕ → List Standing → ℤ → Tables → Tables × Applied
  finish_put g c d accepted ss now t =
      let start : Intake X ecbor scbor me = record {
        set = Tables.load_standings X scbor t g;
        rows = t.group_standings g;
        departed = [];
      } in
      let i = take_standings X ecbor scbor me g d start ss in
      let t1 = record t { group_standings = Tables.at_group g i.rows t.group_standings } in
      let t2 = Tables.rebuild_caches X scbor g d i.set t1 in
      (
        Tables.update_group g (λ r. record r { name = name d; last_synced = now }) t2,
        applied c d accepted i.departed,
      )

  -- `Groups::put`, up to its result.
  unfoldable pub put_checked :
      Tables
      → Tables
      → GroupId
      → ℕ
      → List Entry
      → List Standing
      → ℤ
      → Result StoreError (Tables × Applied)
  put_checked seen t g from es ss now = do
    row ← require seen g
    c ← chain X ecbor seen g
    let overlap = min (len c - from) (length es)
    fail_at g (diverges c from (take overlap es))
    fail_if (ltb (len c) from) (StoreError.gap (len c) from)
    let fresh = drop overlap es
    (d, accepted) ← extend_by c fresh
    t' ← write_head g (len c) d fresh accepted t
    ok (finish_put g c d accepted ss now t')

  -- `Groups::put`: an error rolls the transaction back.
  abbrev pub put_from :
      Tables
      → Tables
      → GroupId
      → ℕ
      → List Entry
      → List Standing
      → ℤ
      → Tables × Result StoreError Applied
  put_from seen t g from es ss now = or_keep t (put_checked seen t g from es ss now)

  -- The same where nobody else writes.
  abbrev pub put :
      Tables → GroupId → ℕ → List Entry → List Standing → ℤ → Tables × Result StoreError Applied
  put t = put_from t t

  abbrev pub signed : Chain × Result ChainError Entry → Result StoreError (Chain × Entry)
  signed (c, ok e) = ok (c, e)
  signed (c, err e) = err (StoreError.chain e)

  -- `Groups::author`, up to its result.
  unfoldable pub author_checked :
      Tables → Tables → X.Keypair → GroupId → Op → ℤ → Result StoreError (Tables × Entry)
  author_checked seen t key g op at = do
    row ← require seen g
    c ← chain X ecbor seen g
    (d, e) ← signed (author X ecbor c key op at)
    t' ← write_head g (len c) d (e ∷ []) 1 t
    let t1 = Tables.rebuild_caches X scbor g d (Tables.load_standings X scbor t' g) t'
    let t2 = Tables.update_group g (λ r. record r { name = name d; last_synced = at }) t1
    ok (Tables.note_news g t2, e)

  -- `Groups::author`
  abbrev pub author_from :
      Tables → Tables → X.Keypair → GroupId → Op → ℤ → Tables × Result StoreError Entry
  author_from seen t key g op at = or_keep t (author_checked seen t key g op at)

  abbrev pub refreshed :
      GroupId → Tables → Result StoreError Chain → Tables × Result StoreError (Unit {0})
  refreshed g t (ok c) =
      (Tables.rebuild_caches X scbor g c (Tables.load_standings X scbor t g) t, ok tt)
  refreshed g t (err e) = (t, err e)

  -- `Groups::refresh_digest`
  unfoldable pub refresh_digest : Tables → GroupId → Tables × Result StoreError (Unit {0})
  refresh_digest t g = refreshed g t (chain X ecbor t g)

  abbrev pub answer_with :
      Standing → Tables × Result StoreError (Unit {0}) → Tables × Result StoreError Standing
  answer_with s (t, ok done) = (t, ok s)
  answer_with s (t, err e) = (t, err e)

  -- The transaction of `author_standing`, then the digest.
  unfoldable pub write_own : Tables → GroupId → Position → Standing → StandingBody → Tables
  write_own t g position s body = Tables.note_news g (
      Tables.set_state g (state_for position) (
        Tables.write_standing g me
          (record { seq = body.seq; position = body.position; standing = s }) t))

  abbrev pub own_written :
      Tables
      → GroupId
      → Position
      → Result StoreError (Standing × StandingBody)
      → Tables × Result StoreError Standing
  own_written t g position (ok (s, body)) =
      answer_with s (refresh_digest (write_own t g position s body) g)
  own_written t g position (err e) = (t, err e)

  -- `Groups::author_standing`
  unfoldable pub author_standing :
      Tables → X.Keypair → GroupId → Position → Bytes → ℤ → Tables × Result StoreError Standing
  author_standing t key g position username at = own_written t g position (do
    let seq = next_seq (my_standing_seq me t g)
    s ← standing_error (Standing.author X scbor key g seq position username at)
    body ← standing_error (Standing.verify X scbor s g)
    ok (s, body))

  abbrev pub adopted :
      Chain → Tables × Result StoreError Applied → Tables × Result StoreError Applied
  adopted c (t, ok a) = (
    t,
    ok (record a {
      head_seq = len c;
      accepted = len c;
      we_joined = Members.contains (fold X c) me;
    }),
  )
  adopted c (t, err e) = (t, err e)

  -- The first transaction of `adopt`.
  unfoldable pub insert_pending : Chain → ℤ → Tables → Tables
  insert_pending c now t = Tables.rebuild_caches X scbor c.id c [] (insert_group c pending now t)

  abbrev pub adopt_chain :
      Tables
      → List Entry
      → List Standing
      → ℤ
      → Result StoreError Chain
      → Tables × Result StoreError Applied
  adopt_chain t es ss now (err e) = (t, err e)
  adopt_chain t es ss now (ok c) =
      if is_some (Tables.get t c.id)
      then put t c.id 0 es ss now
      else adopted c (put (insert_pending c now t) c.id (len c) [] ss now)

  -- `Groups::adopt`
  unfoldable pub adopt :
      Tables → List Entry → List Standing → ℤ → Tables × Result StoreError Applied
  adopt t es ss now = adopt_chain t es ss now (chain_error (load X ecbor es))
