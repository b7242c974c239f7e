-- ===== src/Groups/Store/Race.antt =====
-- Another process writes between the read of a chain and the transaction: store.rs, set_head.
use p2parchiver.Platform.{Platform}
use p2parchiver.Groups.Chain.{Chain}
use p2parchiver.Groups.Standing.{Standing}
use p2parchiver.Groups.Store.Tables
use p2parchiver.Groups.Store.Tables.{held_of, Tables, GroupRecord, StandingRow}
use p2parchiver.Groups.Store.Reads.{require, chain}
use p2parchiver.Groups.Store.Coherent.{}
use p2parchiver.Groups.Store.Tables.{row_of, at_group, load_rows}
use p2parchiver.Groups.Store.Frame.{}
use p2parchiver.Groups.Store.Reads.{chain}
use p2parchiver.Groups.Store.Reads.{require}
