-- ===== src/Lfid/DeadEnds/Loop.antt =====
-- helper/lfid/remove-loops.cpp, removeDeadEnds: the loop over the pairs of one destination.
use ndn_sim.Prelude.{
  ℕ, ◌≡◌, sym, ap, subst, ◌∙◌, true, false, ◌&&◌, List, [], ◌∷◌, some, arith, ◌==◌, All, length,
  Bool-cases, inl, inr,
}
use ndn_sim.Prelude.OrderedSet
use ndn_sim.Lfid.NextHop.{FibNextHop, is_upward, is_downward, lt_nh}
use ndn_sim.Lfid.AllNodes.{AllNodeFib}
use ndn_sim.Lfid.AllNodes.Downward.{AreValid}
use ndn_sim.Lfid.AllNodes.Removal.{
  nexthops_of, entry_at, total, entries_of, Taken, AreDistinct, Taken-AreDistinct, entry_at-Taken,
}
use ndn_sim.Lfid.DeadEnds.{NodeNextHop, lt_pair, lt_pair_irrefl, by_node}
use ndn_sim.Lfid.DeadEnds.Pushes.{IsPresent, IsPushed, Grown}

-- An upward nexthop to a node whose only nexthop leads down to where one came from.
pub record IsDeadEnd (dst : ℕ) (p : NodeNextHop) (fibs : AllNodeFib) : Type 0 where
  pub there : entry_at p.node dst p.nh.nh_id fibs ≡ some p.nh
  pub rises : is_upward p.nh.type ≡ true
  pub apart : (p.node == dst) ≡ false
  pub elsewhere : (p.nh.nh_id == dst) ≡ false
  pub own : FibNextHop
  pub only : nexthops_of p.nh.nh_id dst fibs ≡ some (own ∷ [])
  pub back : own.nh_id ≡ p.node
  pub falls : is_downward own.type ≡ true

module _ (dst : ℕ) where
  abbrev pub entries : AllNodeFib → ℕ
  entries = total (entries_of dst)

  -- The set holds entries that are there, and all dead ends.
  pub record IsLoop (set : List NodeNextHop) (fibs : AllNodeFib) : Type 0 where
    pub valid : AreValid fibs
    pub distinct : AreDistinct fibs
    pub sorted : OrderedSet.IsSorted by_node set
    pub present : All (IsPresent dst fibs) set
    pub waiting : (q : NodeNextHop) → IsDeadEnd dst q fibs → OrderedSet.has by_node q set ≡ true

  equivalent_pairs :
      (p q : NodeNextHop)
      → OrderedSet.equivalent by_node q p ≡ true
      → (q.node ≡ p.node) × (q.nh.nh_id ≡ p.nh.nh_id)
  unfolding lt_pair lt_nh
  equivalent_pairs p q h = (ground arith, ground arith)

  same_pair :
      (p q : NodeNextHop) (fibs : AllNodeFib)
      → IsPresent dst fibs p
      → IsPresent dst fibs q
      → OrderedSet.equivalent by_node q p ≡ true
      → q ≡ p
  same_pair p q fibs hp hq h =
      let (a, b) = equivalent_pairs p q h in
      let c : q.nh ≡ p.nh = ground (arith, hp, hq, a, b) in ground (arith, a, c)

  -- Two entries of one node and one neighbour would be the same pair.
  distinct_pairs :
      (p q : NodeNextHop) (fibs : AllNodeFib)
      → IsPresent dst fibs p
      → IsPresent dst fibs q
      → lt_pair p q ≡ true
      → ((p.node == q.node) && (p.nh.nh_id == q.nh.nh_id)) ≡ false
  distinct_pairs p q fibs hp hq h =
      elim (Bool-cases ((p.node == q.node) && (p.nh.nh_id == q.nh.nh_id))) [
        | inr e ↦ e
        | inl e ↦
            let a : q.node ≡ p.node = ground arith in
            let b : q.nh.nh_id ≡ p.nh.nh_id = ground arith in
            let c : q.nh ≡ p.nh = ground (arith, hp, hq, a, b) in
            let same : q ≡ p = ground (arith, a, c) in
            absurd (ground (arith, lt_pair_irrefl p, h, ap (λ x. lt_pair p x) same))
      ]

  has-tail :
      (q p : NodeNextHop) (set : List NodeNextHop)
      → OrderedSet.has by_node q (p ∷ set) ≡ true
      → OrderedSet.equivalent by_node q p ≡ false
      → OrderedSet.has by_node q set ≡ true
  unfolding OrderedSet.has
  has-tail q p set h e = ground (arith, h, e)

  pub IsLoop-tail :
      (p : NodeNextHop) (set : List NodeNextHop) (fibs : AllNodeFib)
      → IsLoop (p ∷ set) fibs
      → ¬ IsDeadEnd dst p fibs
      → IsLoop set fibs
  IsLoop-tail p set fibs l n = record {
    valid = l.valid;
    distinct = l.distinct;
    sorted = l.sorted.1;
    present = l.present.1;
    waiting = λ q d. elim (Bool-cases (OrderedSet.equivalent by_node q p)) [
      | inl e ↦
          absurd
            (n (subst (λ x. IsDeadEnd dst x fibs) (same_pair p q fibs l.present.0 d.there e) d))
      | inr e ↦ has-tail q p set (l.waiting q d) e
    ];
  }

  -- The pairs after the first are other entries.
  IsPresent-Taken :
      (p : NodeNextHop) (set : List NodeNextHop) (fibs fibs' : AllNodeFib)
      → AreDistinct fibs
      → Taken p.node dst p.nh.nh_id fibs fibs'
      → IsPresent dst fibs p
      → All (λ q. lt_pair p q ≡ true) set
      → All (IsPresent dst fibs) set
      → All (IsPresent dst fibs') set
  IsPresent-Taken p [] fibs fibs' u t hp s a = tt
  IsPresent-Taken p (q ∷ set) fibs fibs' u t hp s a = (
    ground
        (arith, entry_at-Taken t u q.node dst q.nh.nh_id, a.0, distinct_pairs p q fibs hp a.0 s.0),
    IsPresent-Taken p set fibs fibs' u t hp s.1 a.1,
  )

  not_first :
      (q p : NodeNextHop)
      → ((p.node == q.node) && (p.nh.nh_id == q.nh.nh_id)) ≡ false
      → OrderedSet.equivalent by_node q p ≡ false
  not_first q p n = elim (Bool-cases (OrderedSet.equivalent by_node q p)) [
    | inr e ↦ e
    | inl e ↦ let (a, b) = equivalent_pairs p q e in absurd (ground (arith, a, b, n))
  ]

  pub IsLoop-removed :
      (p : NodeNextHop) (set set' : List NodeNextHop) (fibs fibs' : AllNodeFib)
      (owns : List FibNextHop)
      → IsLoop (p ∷ set) fibs
      → AreValid fibs'
      → Taken p.node dst p.nh.nh_id fibs fibs'
      → nexthops_of p.node dst fibs' ≡ some owns
      → Grown dst p.node fibs' (length owns) set set'
      → All (IsPushed dst p.node fibs' set') owns
      → IsLoop set' fibs'
  IsLoop-removed p set set' fibs fibs' owns l v t o g h = record {
    valid = v;
    distinct = Taken-AreDistinct t l.distinct;
    sorted = g.sorted l.sorted.1;
    present =
        g.present
          (IsPresent-Taken p set fibs fibs' l.distinct t l.present.0 l.sorted.0 l.present.1);
    waiting = λ q d. elim (Bool-cases (q.nh.nh_id == p.node)) [
      | inl e ↦ back_waiting q d e
      | inr e ↦ other_waiting q d e
    ];
  }
    where
      back_waiting :
          (q : NodeNextHop)
          → IsDeadEnd dst q fibs'
          → (q.nh.nh_id == p.node) ≡ true
          → OrderedSet.has by_node q set' ≡ true
      back_waiting q d e =
          let b = d.back in
          let f = d.falls in
          let a = d.apart in
          let r = d.there in
          let w = d.only in
          let same : q.nh.nh_id ≡ p.node = ground arith in
          let sole : owns ≡ d.own ∷ [] = ground (arith, o, w, same) in
          let pushed = (subst (All (IsPushed dst p.node fibs' set')) sole h).0 in
          let there : entry_at d.own.nh_id dst p.node fibs' ≡ some q.nh =
            ap (λ n. entry_at n dst p.node fibs') b
            ∙ (ap (λ n. entry_at q.node dst n fibs') (sym same) ∙ r) in
          let pair = pushed q.nh f (ground (arith, a, b)) there in
          subst (λ n. OrderedSet.has by_node (record { node = n; nh = q.nh }) set' ≡ true) b pair

      other_waiting :
          (q : NodeNextHop)
          → IsDeadEnd dst q fibs'
          → (q.nh.nh_id == p.node) ≡ false
          → OrderedSet.has by_node q set' ≡ true
      other_waiting q d e =
          let gone = entry_at-Taken t l.distinct q.node dst q.nh.nh_id in
          let r = d.there in
          let before : IsDeadEnd dst q fibs = record {
            there = ground (arith, gone, r);
            rises = d.rises;
            apart = d.apart;
            elsewhere = d.elsewhere;
            own = d.own;
            only = ground (arith, t.after q.nh.nh_id dst, d.only);
            back = d.back;
            falls = d.falls;
          } in
          g.kept q (has-tail q p set (l.waiting q before) (not_first q p (ground (arith, gone, r))))
