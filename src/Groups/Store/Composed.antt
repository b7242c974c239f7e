-- ===== src/Groups/Store/Composed.antt =====
-- The group sync over the tables of the store: store.rs and sync.rs together.
use p2parchiver.Common.Result.{ok}
use p2parchiver.Common.{refl}
use p2parchiver.Platform.{Platform, PeerId, Cbor}
use p2parchiver.Groups.Chain.Types.{EntryBody}
use p2parchiver.Groups.Standing.{StandingBody}
use p2parchiver.Net.Admission.{Instant}
use p2parchiver.Net.AdmittedPeers.{AdmittedPeers}
use p2parchiver.Groups.Sync.Wire.{StoreOps}
use p2parchiver.Groups.Sync.Machine.{GroupEvent, GroupSync, on}
use p2parchiver.Groups.Sync.Keeps.{Keeps, on-keeps, tick-keeps}
use p2parchiver.Groups.Store.Tables
use p2parchiver.Groups.Store.Tables.{Tables}
use p2parchiver.Groups.Store.Reads.{list, members, log_shared_with, serve, my_standing_seq}
use p2parchiver.Groups.Store.Writes.{put, adopt, author_from, author_standing}
use p2parchiver.Groups.Store.Coherent.{IsCoherent}
use p2parchiver.Groups.Store.Ops.{put-IsCoherent, author-IsCoherent, forget-IsCoherent}
use p2parchiver.Groups.Store.Own.{author_standing-IsCoherent}
use p2parchiver.Groups.Store.Adopt.{adopt-IsCoherent}

module _ (X : Platform) (ecbor : Cbor EntryBody) (scbor : Cbor StandingBody) (me : PeerId) where
  -- `Groups` of a node, as the sync calls it. A statement on the tables does not fail.
  abbrev pub groups : StoreOps X
  groups = record {
    Store = Tables;
    get = λ t g. ok (Tables.get t g);
    list = λ t. ok (list t);
    members = λ t g. ok (members t g);
    log_shared_with = λ t peer. ok (log_shared_with me t peer);
    serve = λ t g peer from. serve X ecbor me t g peer from;
    my_standing_seq = λ t g. ok (my_standing_seq me t g);
    put = put X ecbor scbor me;
    adopt = adopt X ecbor scbor me;
    author = λ t. author_from X ecbor scbor me t t;
    author_standing = author_standing X ecbor scbor me;
    forget = λ t g. (Tables.forget g t, ok tt);
  }

  pub groups-Keeps : Keeps X groups (IsCoherent X ecbor scbor)
  groups-Keeps = record {
    put = put-IsCoherent X ecbor scbor me;
    adopt = adopt-IsCoherent X ecbor scbor me;
    author = author-IsCoherent X ecbor scbor me;
    author_standing = author_standing-IsCoherent X ecbor scbor me;
  }

  -- Whatever event the group sync handles, from whatever peer, tables that are coherent stay so: for
  -- each group the entries load to one chain, whose admin, name, length and last hash its row has, and
  -- its members and its digest are those of that chain and of the standings held.
  pub sync-IsCoherent :
      (s : GroupSync X groups) (now : Instant) (event : GroupEvent) (admitted : AdmittedPeers)
      → IsCoherent X ecbor scbor s.store
      → IsCoherent X ecbor scbor (on X groups s now event admitted).0.store
  sync-IsCoherent s now (GroupEvent.tick now' at) admitted =
      tick-keeps X groups (IsCoherent X ecbor scbor) (forget-IsCoherent X ecbor scbor me) s now now'
        at admitted
  sync-IsCoherent s now (GroupEvent.heads peer hs) admitted =
      on-keeps X groups (IsCoherent X ecbor scbor) groups-Keeps s now (GroupEvent.heads peer hs)
        admitted refl
  sync-IsCoherent s now (GroupEvent.entries peer g from es ss) admitted =
      on-keeps X groups (IsCoherent X ecbor scbor) groups-Keeps s now
        (GroupEvent.entries peer g from es ss) admitted refl
  sync-IsCoherent s now (GroupEvent.unavailable peer g) admitted =
      on-keeps X groups (IsCoherent X ecbor scbor) groups-Keeps s now
        (GroupEvent.unavailable peer g) admitted refl
  sync-IsCoherent s now (GroupEvent.fetch_failed peer g) admitted =
      on-keeps X groups (IsCoherent X ecbor scbor) groups-Keeps s now
        (GroupEvent.fetch_failed peer g) admitted refl
  sync-IsCoherent s now (GroupEvent.ask_failed peer) admitted =
      on-keeps X groups (IsCoherent X ecbor scbor) groups-Keeps s now (GroupEvent.ask_failed peer)
        admitted refl
