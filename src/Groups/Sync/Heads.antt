-- ===== src/Groups/Sync/Heads.antt =====
-- What a node fetches when a peer names its heads: sync.rs, on_heads and silently_omitted, with the
-- readings of the store that the machine shares.
use p2parchiver.Common.{
  ℕ, Bool, true, false, not, ◌&&◌, ◌||◌, Option, none, some, List, [], ◌∷◌, map, ltb, ◌==◌,
  if◌then◌else◌, take, keep_if, any_of,
}
use p2parchiver.Common.Bytes.{bytes_eq}
use p2parchiver.Common.Result.{Result, ok, err}
use p2parchiver.Platform.{Platform, PeerId}
use p2parchiver.Groups.Id.{GroupId}
use p2parchiver.Groups.Members
use p2parchiver.Groups.Members.{Members}
use p2parchiver.Net.Admission.{Instant}
use p2parchiver.Groups.Sync.Wire.{
  GroupHead, GroupRow, State, StoreError, StoreOps, GroupAction, max_heads_per_answer,
}
use p2parchiver.Groups.Sync.Fetches.{both, Episodes, InFlight, fetch}

-- `unwrap_or_default`
abbrev pub or_nothing {ℓ} : {E A : Type ℓ} → Result E (List A) → List A
or_nothing (ok xs) = xs
or_nothing (err e) = []

abbrev pub head_in : Result StoreError (Option GroupRow) → ℕ
head_in (ok (some row)) = row.head_seq
head_in _ = 0

abbrev pub is_known : Result StoreError (Option GroupRow) → Bool
is_known (ok (some row)) = true
is_known _ = false

abbrev pub is_pending : Result StoreError (Option GroupRow) → Bool
is_pending (ok (some row)) = elim row.state [ State.pending ↦ true | _ ↦ false ]
is_pending _ = false

abbrev pub admins : PeerId → Result StoreError (Option GroupRow) → Bool
admins me (ok (some row)) = row.admin == me
admins me _ = false

-- Whether the members could be read and name the peer; the default is for a failed read.
abbrev pub names_or : Bool → PeerId → Result StoreError Members → Bool
names_or default p (ok m) = Members.contains m p
names_or default p (err e) = default

abbrev pub has_spoken : Result StoreError (Option ℕ) → Bool
has_spoken (ok (some n)) = true
has_spoken _ = false

-- `Some(f) if f.peer == peer && f.from == from`
abbrev pub awaits : PeerId → ℕ → Option InFlight → Bool
awaits peer from none = false
awaits peer from (some f) = f.peer == peer && f.from == from

abbrev pub runs_at : PeerId → Option InFlight → Bool
runs_at peer none = false
runs_at peer (some f) = f.peer == peer

module _ (X : Platform) (S : StoreOps X) where
  abbrev fetch_if : Instant → Bool → PeerId → GroupId → ℕ → Episodes → Episodes × List GroupAction
  fetch_if now wanted peer group from e = if wanted then fetch now peer group from e else (e, [])

  -- What one head that a peer named makes us do.
  unfoldable pub on_head :
      Instant
      → PeerId
      → GroupHead
      → Result StoreError (Option GroupRow)
      → Episodes
      → Episodes × List GroupAction
  on_head now peer head (ok none) e = fetch now peer head.group 0 e
  on_head now peer head (ok (some row)) e =
      fetch_if now
        (ltb row.head_seq head.head_seq || not (bytes_eq head.standings row.standings_digest)) peer
        head.group row.head_seq e
  on_head now peer head (err error) e = (e, [])

  unfoldable pub fetch_heads :
      S.Store → Instant → PeerId → List GroupHead → Episodes → Episodes × List GroupAction
  fetch_heads store now peer [] e = (e, [])
  fetch_heads store now peer (h ∷ hs) e =
      both (on_head now peer h (S.get store h.group) e) (λ e'. fetch_heads store now peer hs e')

  unfoldable pub fetch_groups :
      S.Store → Instant → PeerId → List GroupId → Episodes → Episodes × List GroupAction
  fetch_groups store now peer [] e = (e, [])
  fetch_groups store now peer (g ∷ gs) e =
      both (fetch now peer g (head_in (S.get store g)) e) (λ e'. fetch_groups store now peer gs e')

  -- `GroupSync::silently_omitted`
  unfoldable pub silently_omitted : S.Store → PeerId → List GroupHead → List GroupId
  silently_omitted store peer named =
      map (λ row. row.id)
        (keep_if
          (λ row.
            not (any_of (λ h. bytes_eq h.group row.id) named)
            && names_or false peer (S.members store row.id))
          (or_nothing (S.list store)))

  -- `GroupSync::on_heads`
  unfoldable pub on_heads :
      S.Store → Instant → PeerId → List GroupHead → Episodes → Episodes × List GroupAction
  on_heads store now peer hs e =
      let named = take max_heads_per_answer hs in
      both (fetch_heads store now peer named e)
        (λ e'. fetch_groups store now peer (silently_omitted store peer named) e')
