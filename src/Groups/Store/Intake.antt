-- ===== src/Groups/Store/Intake.antt =====
-- The standings that `put` takes in: store.rs, the loop of `Groups::put`.
use p2parchiver.Common.{
  Bool, false, ◌&&◌, ◌||◌, Option, none, some, List, [], ◌∷◌, ◌++◌, ◌==◌, if◌then◌else◌, any_of,
}
use p2parchiver.Common.Map
use p2parchiver.Common.Map.{Map}
use p2parchiver.Common.Result.{Result, ok, err}
use p2parchiver.Platform.{Platform, PeerId, Cbor}
use p2parchiver.Groups.Id.{GroupId}
use p2parchiver.Groups.Chain.Types.{EntryBody, Op, ChainError, decode}
use p2parchiver.Groups.Chain.{Chain, fold, name, entries}
use p2parchiver.Groups.Standing.{
  Standing, StandingBody, StandingSet, StandingError, Position, unanswered, «in», out, is_departure,
  next_seq, Held,
}
use p2parchiver.Groups.Standing
use p2parchiver.Groups.Members
use p2parchiver.Groups.Members.{Members, Member}
use p2parchiver.Groups.Store.Tables.{StandingRow}

module _ (X : Platform) (ecbor : Cbor EntryBody) (scbor : Cbor StandingBody) (me : PeerId) where
  abbrev names_peer : PeerId → Option PeerId → Bool
  names_peer peer none = false
  names_peer peer (some p) = p == peer

  abbrev adds : PeerId → Result ChainError EntryBody → Bool
  adds peer (err e) = false
  adds peer (ok b) = elim b.op [
    | Op.add named ↦ names_peer peer (X.parse_peer_id named)
    | Op.remove named ↦ false
    | Op.create admin nonce name ↦ false
  ]

  -- `ever_mentioned`
  unfoldable pub ever_mentioned : Chain → PeerId → Bool
  ever_mentioned c peer = c.admin == peer || any_of (λ e. adds peer (decode X ecbor e)) (entries c)

  -- What the loop over the standings carries: the set, the rows and who departed.
  pub record Intake : Type 0 where
    pub set : StandingSet
    pub rows : Map StandingRow
    pub departed : List PeerId

  abbrev pub take_if : Bool → Intake → PeerId → Standing → StandingBody → Bool → Intake
  take_if named i peer s body counts =
      let held : Held = record {
        standing = s;
        seq = body.seq;
        position = body.position;
        username = body.username;
      } in
      let (set, won) = Standing.insert peer held i.set in
      if named && won
      then record {
        set = set;
        rows =
            Map.insert peer (record { seq = body.seq; position = body.position; standing = s })
              i.rows;
        departed =
            if is_departure body.position && counts then i.departed ++ peer ∷ [] else i.departed;
      }
      else i

  abbrev pub take_body : Chain → Intake → Standing → StandingBody → Option PeerId → Intake
  take_body c i s body none = i
  take_body c i s body (some peer) =
      take_if (ever_mentioned c peer) i peer s body (Members.contains (fold X c) peer)

  abbrev pub take_verified : Chain → Intake → Standing → Result StandingError StandingBody → Intake
  take_verified c i s (err e) = i
  take_verified c i s (ok body) = take_body c i s body (X.parse_peer_id body.peer)

  -- The loop of `put` over the standings handed in.
  unfoldable pub take_standings : GroupId → Chain → Intake → List Standing → Intake
  take_standings g c i [] = i
  take_standings g c i (s ∷ ss) =
      take_standings g c (take_verified c i s (Standing.verify X scbor s g)) ss
