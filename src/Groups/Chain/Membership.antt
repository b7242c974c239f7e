-- ===== src/Groups/Chain/Membership.antt =====
-- The membership that a valid chain folds to: `Chain::fold` of chain.rs and members.rs.
use p2parchiver.Common.{
  ◌≡◌, refl, ◌∙◌, Bool, true, false, not, ◌&&◌, ◌||◌, none, List, [], ◌∷◌, ◌++◌, arith, ◌==◌,
  ==_refl,
}
use p2parchiver.Common.Map
use p2parchiver.Common.Map.{Map}
use p2parchiver.Platform.{Platform, PeerId, Cbor}
use p2parchiver.Groups.Id.{GroupId}
use p2parchiver.Groups.Members
use p2parchiver.Groups.Members.{Members, Member}
use p2parchiver.Groups.Chain.{load}
use p2parchiver.Groups.Chain.Extend.{load-IsValid}
use p2parchiver.Groups.Chain.Types.{Entry}
use p2parchiver.Common.{List}
use p2parchiver.Common.Result.{ok}
use p2parchiver.Groups.Chain.Types.{EntryBody, Op}
use p2parchiver.Groups.Chain.{Chain, Verified, fold, fold_from, apply_op, name}
use p2parchiver.Groups.Chain.Rules.{IsValid, Creates, Allowed}
use p2parchiver.Groups.Chain.Induction.{valid_induction}

module _ (X : Platform) where
  pub fold_from-snoc :
      (m : Members) (us : List Verified) (v : Verified)
      → fold_from X m (us ++ v ∷ []) ≡ apply_op X (fold_from X m us) v.body.op
  unfolding fold_from
  fold_from-snoc m [] v = refl
  fold_from-snoc m (u ∷ us) v = fold_from-snoc (apply_op X m u.body.op) us v

  -- Who is a member after one more operation.
  pub contains-insert :
      (p q : PeerId) (b : Bool) (m : Members)
      → Members.contains (Members.insert p b m) q ≡ ((p == q) || Members.contains m q)
  unfolding Members.insert
  contains-insert p q b m = ground (arith, Map.get-insert p q member m)
    where
      member : Member
      member = record { peer = p; username = none; is_admin = b }

  pub contains-remove :
      (p q : PeerId) (m : Members)
      → Members.contains (Members.remove p m).0 q ≡ (not (p == q) && Members.contains m q)
  unfolding Members.remove
  contains-remove p q m = ground (arith, Map.get-remove p q m)

module _ (X : Platform) (cbor : Cbor EntryBody) where
  admin_founds :
      (id : GroupId) (admin : PeerId) (v : Verified) (op : Op)
      → Creates X admin op
      → Members.contains (apply_op X [] op) admin ≡ true
  unfolding apply_op
  admin_founds id admin v (Op.create raw nonce name) h =
      rw h.0 (contains-insert X admin admin true [] ∙ rw ==_refl)
  admin_founds id admin v _ h = absurd h

  admin_kept :
      (c : Chain) (op : Op)
      → Allowed X c op
      → Members.contains (fold X c) c.admin ≡ true
      → Members.contains (apply_op X (fold X c) op) c.admin ≡ true
  unfolding apply_op
  admin_kept c (Op.create raw nonce name) h k = absurd h
  admin_kept c (Op.add raw) (p, parsed, _, _) k =
      ground (arith, contains-insert X p c.admin false (fold X c))
  admin_kept c (Op.remove raw) (p, parsed, other, _) k =
      ground (arith, contains-remove X p c.admin (fold X c))

  fold-admin : (c : Chain) → IsValid X cbor c → Members.contains (fold X c) c.admin ≡ true
  unfolding fold
  fold-admin c valid =
      valid_induction X cbor c valid (λ us. Members.contains (fold_from X [] us) c.admin ≡ true)
        (λ v f. admin_founds c.id c.admin v v.body.op f.creates)
        (λ us v f ih.
          rw fold_from-snoc (admin_kept (record c { entries = us }) v.body.op f.allowed ih))

  -- The admin of every chain that loads is one of its members.
  pub admin_stays :
      (es : List Entry) (c : Chain)
      → load X cbor es ≡ ok c
      → Members.contains (fold X c) c.admin ≡ true
  admin_stays es c loads = fold-admin c (load-IsValid X cbor es c loads).0
