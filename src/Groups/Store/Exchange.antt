-- ===== src/Groups/Store/Exchange.antt =====
-- What one node serves, another takes: store.rs, serve with put and adopt.
use p2parchiver.Common.{
  ℕ, ◌≤◌, ◌≡◌, refl, sym, ap, ◌∙◌, subst, true, none, some, List, [], ◌++◌, arith, if◌then◌else◌,
  is_some, length, drop,
}
use p2parchiver.Common.Result.{ok, ok-injective}
use p2parchiver.Common.Int.{ℤ}
use p2parchiver.Platform.{Platform, PeerId, Cbor}
use p2parchiver.Groups.Id.{GroupId}
use p2parchiver.Groups.Chain.Types.{Entry, EntryBody}
use p2parchiver.Groups.Chain.{Chain, load, fold, len, entries}
use p2parchiver.Groups.Standing.{Standing, StandingBody}
use p2parchiver.Groups.Members
use p2parchiver.Groups.Members.{Members, Member}
use p2parchiver.Groups.Sync.Wire.{GroupRow, Served}
use p2parchiver.Groups.Store.Tables
use p2parchiver.Groups.Store.Tables.{held_of, head_is, Tables, GroupRecord, StandingRow}
use p2parchiver.Groups.Store.Reads.{chain, chain_error}
use p2parchiver.Groups.Store.Coherent.{IsCoherent}
use p2parchiver.Groups.Store.Tables.{row_of, at_group, update_group, load_rows}
use p2parchiver.Groups.Store.Frame.{}
use p2parchiver.Common.{length-map}
use p2parchiver.Groups.Store.Reads.{chain, chain_error}
use p2parchiver.Groups.Store.Writes.{finish_put, put, or_keep}
use p2parchiver.Groups.Store.Writes.{adopt, insert_pending, adopted, adopt_chain}
use p2parchiver.Groups.Store.Ops.{known-IsReady}
use p2parchiver.Groups.Store.Reads.{serve, standings}
use p2parchiver.Groups.Store.CatchUp.{CaughtUp, put_catches_up, finished-chain}
use p2parchiver.Groups.Store.Adopt.{insert_pending-IsReady, put_end}
use p2parchiver.Groups.Store.Serving.{members-coherent, entries_between-drop}
use p2parchiver.Common.{take_all}

module _ (X : Platform) (ecbor : Cbor EntryBody) (scbor : Cbor StandingBody) where
  -- A member is sent all entries from the place it asks for.
  pub serve-whole :
      (me : PeerId) (t : Tables) (g : GroupId) (r : GroupRow) (c : Chain) (peer : PeerId) (from : ℕ)
      → IsCoherent X ecbor scbor t
      → Tables.get t g ≡ some r
      → chain X ecbor t g ≡ ok c
      → Members.contains (fold X c) me ≡ true
      → Members.contains (fold X c) peer ≡ true
      → serve X ecbor me t g peer from
        ≡ ok (some (record { entries = drop from (entries c); standings = standings t g }))
  unfolding serve
  serve-whole me t g r c peer from coherent found held here there =
      let mine = members-coherent X ecbor scbor me t g r c me coherent found held in
      let theirs = members-coherent X ecbor scbor me t g r c peer coherent found held in
      let all =
        entries_between-drop X ecbor scbor me c from (len c)
        ∙ ap (drop from)
            (take_all (len c) (entries c) (ground (arith, length-map (λ v. v.entry) c.entries))) in
      rw (mine ∙ here) (rw held (rw (theirs ∙ there) (rw all refl)))

  chain-loads :
      (me : PeerId) (t : Tables) (g : GroupId) (r : GroupRow) (c : Chain)
      → IsCoherent X ecbor scbor t
      → Tables.get t g ≡ some r
      → chain X ecbor t g ≡ ok c
      → (load X ecbor (entries c) ≡ ok c) × (c.id ≡ g)
  chain-loads me t g r c coherent found held =
      let (c', ready, named, held') = known-IsReady X ecbor scbor me t g r coherent found in
      subst (λ x. (load X ecbor (entries x) ≡ ok x) × (x.id ≡ g)) (ok-injective (sym held' ∙ held))
        (ready.loads, ready.own_id)

  -- A member whose chain of a group is behind that of another member asks it for the entries from a
  -- place of its own chain: what the other serves, `put` takes in full, and then both tables hold one
  -- chain.
  pub fetch_catches_up :
      (server client : PeerId) (ts tc : Tables) (g : GroupId) (rs rc : GroupRow) (c d : Chain)
      (fresh : List Entry) (from : ℕ) (now : ℤ)
      → IsCoherent X ecbor scbor ts
      → IsCoherent X ecbor scbor tc
      → Tables.get ts g ≡ some rs
      → Tables.get tc g ≡ some rc
      → chain X ecbor ts g ≡ ok d
      → chain X ecbor tc g ≡ ok c
      → entries d ≡ entries c ++ fresh
      → from ≤ len c
      → Members.contains (fold X d) server ≡ true
      → Members.contains (fold X d) client ≡ true
      → (served : Served) × (serve X ecbor server ts g client from ≡ ok (some served))
        × CaughtUp X ecbor scbor client
            (put X ecbor scbor client tc g from served.entries served.standings now)
            g
            d
            (length fresh)
  fetch_catches_up server client ts tc g rs rc c d fresh from now cs cc fs fc hs hc longer within
        here there =
      let (loads, _) = chain-loads server ts g rs d cs fs hs in
      let sent : List Entry = drop from (entries d) in
      (
        record { entries = sent; standings = standings ts g },
        serve-whole server ts g rs d client from cs fs hs here there,
        subst
            (λ es.
              CaughtUp X ecbor scbor client
                (put X ecbor scbor client tc g from (drop from es) (standings ts g) now) g d
                (length fresh))
            (sym longer)
            (put_catches_up X ecbor scbor client tc g rc c d fresh from (standings ts g) now cc fc
              hc (ap (load X ecbor) (sym longer) ∙ loads) within),
      )

  adopted-CaughtUp :
      (me : PeerId) (t : Tables) (es : List Entry) (ss : List Standing) (c : Chain) (now : ℤ)
      → IsCoherent X ecbor scbor t
      → load X ecbor (entries c) ≡ ok c
      → Tables.get t c.id ≡ none
      → CaughtUp X ecbor scbor me (adopt_chain X ecbor scbor me t es ss now (ok c)) c.id c (len c)
  unfolding finish_put
  adopted-CaughtUp me t es ss c now coherent loads gone =
      let t1 = insert_pending X ecbor scbor me c now t in
      let (s, ready, sorted, only) =
        insert_pending-IsReady X ecbor scbor me t c now coherent loads gone in
      let last = finish_put X ecbor scbor me c.id c c 0 ss now t1 in
      subst
        (λ o.
          CaughtUp X ecbor scbor me
            (if is_some o
              then put X ecbor scbor me t c.id 0 es ss now
              else adopted X ecbor scbor me c (put X ecbor scbor me t1 c.id (len c) [] ss now))
            c.id c (len c))
        (sym gone)
        (subst
          (λ x.
            CaughtUp X ecbor scbor me (adopted X ecbor scbor me c (or_keep X ecbor scbor me t1 x))
              c.id c (len c))
          (sym (put_end X ecbor scbor me t1 c.id c s ss now ready))
          (
            record last.1 {
              head_seq = len c;
              accepted = len c;
              we_joined = Members.contains (fold X c) me;
            },
            refl,
            refl,
            refl,
            finished-chain X ecbor scbor me t1 c.id c c 0 ss now s ready,
          ))

  -- An invited peer that holds nothing of a group asks a member for it from the start: what the member
  -- serves is adopted, and then both tables hold one chain.
  pub fetch_joins :
      (server client : PeerId) (ts tc : Tables) (g : GroupId) (rs : GroupRow) (d : Chain) (now : ℤ)
      → IsCoherent X ecbor scbor ts
      → IsCoherent X ecbor scbor tc
      → Tables.get ts g ≡ some rs
      → Tables.get tc g ≡ none
      → chain X ecbor ts g ≡ ok d
      → Members.contains (fold X d) server ≡ true
      → Members.contains (fold X d) client ≡ true
      → (served : Served) × (serve X ecbor server ts g client 0 ≡ ok (some served))
        × CaughtUp X ecbor scbor client
            (adopt X ecbor scbor client tc served.entries served.standings now)
            g
            d
            (len d)
  unfolding adopt
  fetch_joins server client ts tc g rs d now cs cc fs gone hs here there =
      let (loads, own) = chain-loads server ts g rs d cs fs hs in
      (
        record { entries = entries d; standings = standings ts g },
        serve-whole server ts g rs d client 0 cs fs hs here there,
        subst
            (λ h.
              CaughtUp X ecbor scbor client
                (adopt_chain X ecbor scbor client tc (entries d) (standings ts g) now
                  (chain_error h))
                g d (len d))
            (sym loads)
            (subst
              (λ i.
                CaughtUp X ecbor scbor client
                  (adopt_chain X ecbor scbor client tc (entries d) (standings ts g) now (ok d)) i d
                  (len d))
              own
              (adopted-CaughtUp client tc (entries d) (standings ts g) d now cc loads
                (ap (Tables.get tc) own ∙ gone))),
      )
