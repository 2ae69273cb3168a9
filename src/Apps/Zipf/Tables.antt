-- ===== src/Apps/Zipf/Tables.antt =====
-- apps/ndn-consumer-zipf-mandelbrot.cpp: the table of probabilities and the search in it.
use ndn_sim.Prelude.{
  ℕ, zero, suc, ◌+◌, ◌-◌, ◌≤◌, ◌<◌, ◌≡◌, ◌&&◌, refl, ap, subst, ◌∙◌, true, false, ◌⊎◌, inl, inr,
  arith, ◌==◌, leb, if◌then◌else◌, Bool-cases,
}
use ndn_sim.Rtt.MeanDeviation.{Doubles}
use ndn_sim.Apps.Zipf.{
  ZipfState, set_at, term, cumulate, normalize, set_number_of_contents, search_content,
  get_next_seq,
}

module _ (d : Doubles) (pow : d.Double → d.Double → d.Double) where
  open d use {Double, plus, div, decimal, lt}

  -- The sum of the first terms.
  abbrev pub sum_to : Double → Double → ℕ → Double
  sum_to q s zero = decimal 0 0
  sum_to q s (suc j) = plus (sum_to q s j) (term d pow q s (suc j))

  sum_at :
      (q s : Double) (i : ℕ) → 0 < i → plus (sum_to q s (i - 1)) (term d pow q s i) ≡ sum_to q s i
  sum_at q s zero p = absurd (omega (arith, p))
  sum_at q s (suc k) p =
      let same : suc k - 1 ≡ k = omega arith in
      ap (λ m. plus (sum_to q s m) (term d pow q s (suc k))) same

  -- What the first loop leaves, where the entries before `i` are the sums.
  cumulate_lem :
      (q s : Double) (n i : ℕ) (table : ℕ → Double) (j : ℕ)
      → 0 < i
      → ((k : ℕ) → k < i → table k ≡ sum_to q s k)
      → j < i + n
      → cumulate d pow q s n i table j ≡ sum_to q s j
  unfolding cumulate
  cumulate_lem q s zero i table j p h b = h j (omega (arith, b))
  cumulate_lem q s (suc n) i table j p h b =
      cumulate_lem q s n (i + 1) (set_at d pow i (plus (table (i - 1)) (term d pow q s i)) table) j
        (omega arith) next (omega (arith, b))
    where
      last_sum : plus (table (i - 1)) (term d pow q s i) ≡ sum_to q s i
      last_sum = ap (λ x. plus x (term d pow q s i)) (h (i - 1) (omega (arith, p))) ∙ sum_at q s i p

      next :
          (k : ℕ)
          → k < i + 1
          → set_at d pow i (plus (table (i - 1)) (term d pow q s i)) table k ≡ sum_to q s k
      next k c = elim (Bool-cases (i == k)) [
        | inl e ↦ let same : i ≡ k = ground arith in rw e (last_sum ∙ ap (sum_to q s) same)
        | inr e ↦ rw e (h k (ground (arith, c, e)))
      ]

  -- The second loop divides each entry from `i` on by the last one, as it was before.
  normalize_lem :
      (last n i : ℕ) (table : ℕ → Double) (j : ℕ)
      → i + n ≡ last + 1
      → normalize d pow last n i table j
        ≡ (if leb i j && leb j last then div (table j) (table last) else table j)
  unfolding normalize
  normalize_lem last zero i table j e = ground (arith, e)
  normalize_lem last (suc n) i table j e = ground (
    arith,
    e,
    normalize_lem last n (i + 1) (set_at d pow i (div (table i) (table last)) table) j
        (omega (arith, e)),
  )

  -- Each entry of the table is the sum of the terms up to its index, over the sum of all terms.
  pub set_number_of_contents_lem :
      (n : ℕ) (z : ZipfState d) (j : ℕ)
      → 0 < j
      → j ≤ n
      → (set_number_of_contents d pow n z).p_cum j ≡ div (sum_to z.q z.s j) (sum_to z.q z.s n)
  unfolding set_number_of_contents
  set_number_of_contents_lem n z j p b =
      let zeros = λ (k : ℕ). decimal 0 0 in
      let sums = cumulate d pow z.q z.s n 1 zeros in
      normalize_lem n n 1 sums j (omega arith)
      ∙ ground (
        arith,
        p,
        b,
        cumulate_lem z.q z.s n 1 zeros j (omega arith) first (omega (arith, b)),
        cumulate_lem z.q z.s n 1 zeros n (omega arith) first (omega arith),
      )
    where
      first : (k : ℕ) → k < 1 → decimal 0 0 ≡ sum_to z.q z.s k
      first zero c = refl
      first (suc k) c = absurd (omega (arith, c))

module _ (d : Doubles) where
  open d use {Double, lt}

  -- The first index whose entry is not below the value drawn, or 1 if every entry is below it.
  pub record IsChosen (table : ℕ → Double) (p : Double) (low high k : ℕ) : Type 0 where
    pub below : (j : ℕ) → low ≤ j → j < k → lt (table j) p ≡ true
    pub reached : lt (table k) p ≡ false
    pub from_low : low ≤ k
    pub to_high : k < high

  search_content_lem :
      (table : ℕ → Double) (p : Double) (n i : ℕ)
      → IsChosen table p i (i + n) (search_content d table p n i)
        ⊎ (((j : ℕ) → i ≤ j → j < i + n → lt (table j) p ≡ true)
            × (search_content d table p n i ≡ 1))
  unfolding search_content
  search_content_lem table p zero i = inr ((λ j a b. absurd (omega (arith, a, b))), refl)
  search_content_lem table p (suc n) i = elim (Bool-cases (lt (table i) p)) [
    | inr e ↦ inl (
        rw e (record {
          below = λ j a b. absurd (omega (arith, a, b));
          reached = e;
          from_low = omega arith;
          to_high = omega arith;
        }))
    | inl e ↦ rw e (elim (search_content_lem table p n (i + 1)) [
      | inl c ↦ inl (record {
        below = λ j a b. elim (Bool-cases (i == j)) [
          | inl same ↦ let eq : i ≡ j = ground arith in subst (λ m. lt (table m) p ≡ true) eq e
          | inr other ↦ c.below j (ground (arith, a, other)) b
        ];
        reached = c.reached;
        from_low = omega (arith, c.from_low);
        to_high = omega (arith, c.to_high);
      })
      | inr (all, one) ↦ inr (
        (λ j a b. elim (Bool-cases (i == j)) [
          | inl same ↦ let eq : i ≡ j = ground arith in subst (λ m. lt (table m) p ≡ true) eq e
          | inr other ↦ all j (ground (arith, a, other)) (omega (arith, b))
        ]),
        one,
      )
    ])
  ]

  -- GetNextSeq gives the first content from 1 to the number of contents whose entry in the table is
  -- not below the value drawn; if every entry is below it, it gives 1.
  pub get_next_seq_lem :
      (p : Double) (z : ZipfState d)
      → IsChosen z.p_cum p 1 (1 + z.number_of_contents) (get_next_seq d p z)
        ⊎ (((j : ℕ) → 1 ≤ j → j < 1 + z.number_of_contents → lt (z.p_cum j) p ≡ true)
            × (get_next_seq d p z ≡ 1))
  unfolding get_next_seq
  get_next_seq_lem p z = search_content_lem z.p_cum p z.number_of_contents 1
