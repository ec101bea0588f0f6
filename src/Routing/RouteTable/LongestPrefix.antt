-- ===== src/Routing/RouteTable/LongestPrefix.antt =====
-- Which route `longest_prefix_match` picks.
use mathlib.Core.Path.{subst}
use hzl_silicon_switch_lab.Base.{
  ◌≤◌, ◌<◌, ◌≡◌, ◌≢◌, ◌⊎◌, inl, inr, refl, ap, ◌∙◌, true, false, [], ◌∷◌, ◌&&◌, Option, none, some,
  arith, if◌then◌else◌, Bool-cases, sym, some_inj, ==_iff, bit_and,
}
use hzl_silicon_switch_lab.Network.Ipv4Address.{Ipv4Address, address_eq}
use hzl_silicon_switch_lab.Network.Ipv4Prefix.{
  Ipv4Prefix, prefix_eq, prefix_eq_iff, contains, mask_value,
}
use hzl_silicon_switch_lab.Routing.RouteTable.{
  RouteEntry, Ipv4RouteTable, find_exact, improves, match_loop, longest_prefix_match,
}

improves-shorter :
    (best : Option RouteEntry) (x e : RouteEntry)
    → improves best x ≡ false
    → improves best e ≡ true
    → x.prefix.length < e.prefix.length
unfolding improves
improves-shorter none x e h i = cc
improves-shorter (some b) x e h i = ground (arith, h, i)

improves-longer :
    (best : Option RouteEntry) (x e : RouteEntry)
    → improves best x ≡ true
    → x.prefix.length < e.prefix.length
    → improves best e ≡ true
unfolding improves
improves-longer none x e h i = refl
improves-longer (some b) x e h i = ground (arith, h, i)

improves-some :
    (best e : RouteEntry)
    → (improves (some best) e ≡ false → e.prefix.length ≤ best.prefix.length)
      × (improves (some best) e ≡ true → best.prefix.length < e.prefix.length)
unfolding improves
improves-some best e = (λ h. ground (arith, h), λ h. ground (arith, h))

module _ (destination : Ipv4Address) where
  -- The entries of the table that match are no longer than a bound on them says.
  abbrev AllMatches : Ipv4RouteTable → (RouteEntry → Type 0) → Type 0
  AllMatches entries P =
      (p : Ipv4Prefix) (e : RouteEntry)
      → find_exact entries p ≡ some e
      → contains p destination ≡ true
      → P e

  -- The entry matches, stands in the table, and no longer entry does.
  abbrev pub IsBest : Ipv4RouteTable → RouteEntry → Type 0
  IsBest entries best =
      (find_exact entries best.prefix ≡ some best)
      × (contains best.prefix destination ≡ true)
      × AllMatches entries (λ e. e.prefix.length ≤ best.prefix.length)

  -- What the loop returns, from the best entry before it.
  abbrev LoopSpec : Ipv4RouteTable → Option RouteEntry → Option RouteEntry → Type 0
  LoopSpec entries best result =
      (result ≡ best) × AllMatches entries (λ e. improves best e ≡ false)
      ⊎ ((found : RouteEntry) × (result ≡ some found)
          × (improves best found ≡ true)
          × IsBest entries found)

  -- A property of the matching entries of a longer table.
  AllMatches-cons :
      (x : RouteEntry) (entries : Ipv4RouteTable) (P : RouteEntry → Type 0)
      → (contains x.prefix destination ≡ true → P x)
      → AllMatches entries P
      → AllMatches (x ∷ entries) P
  unfolding find_exact
  AllMatches-cons x entries P here there p e f c = elim (Bool-cases (prefix_eq x.prefix p)) [
    | inl same ↦
        subst P (some_inj (rw same at f))
          (here (ap (λ q. contains q destination) ((prefix_eq_iff x.prefix p).0 same) ∙ c))
    | inr other ↦ there p e (rw other at f) c
  ]

  find_exact-first :
      (x : RouteEntry) (entries : Ipv4RouteTable) → find_exact (x ∷ entries) x.prefix ≡ some x
  unfolding find_exact
  find_exact-first x entries = rw ((prefix_eq_iff x.prefix x.prefix).1 refl) refl

  find_exact-later :
      (x : RouteEntry) (entries : Ipv4RouteTable) (q : Ipv4Prefix)
      → x.prefix ≢ q
      → find_exact (x ∷ entries) q ≡ find_exact entries q
  unfolding find_exact
  find_exact-later x entries q other = ground (arith, prefix_eq_iff x.prefix q, other)

  taken :
      (x : RouteEntry) (entries : Ipv4RouteTable) (best result : Option RouteEntry)
      → contains x.prefix destination ≡ true
      → improves best x ≡ true
      → LoopSpec entries (some x) result
      → LoopSpec (x ∷ entries) best result
  taken x entries best result c i (inl (r, all)) = inr (
    x,
    r,
    i,
    (
      find_exact-first x entries,
      c,
      AllMatches-cons x entries (λ e. e.prefix.length ≤ x.prefix.length) (λ m. omega arith)
          (λ p e f m. (improves-some x e).0 (all p e f m)),
    ),
  )
  taken x entries best result c i (inr (found, r, j, (here, m, all))) =
      let longer = (improves-some x found).1 j in
      inr (
        found,
        r,
        improves-longer best x found i longer,
        (
          find_exact-later x entries found.prefix
                (λ same. omega (arith, longer, ap (λ q. q.length) same))
              ∙ here,
          m,
          AllMatches-cons x entries (λ e. e.prefix.length ≤ found.prefix.length)
              (λ m. omega (arith, longer)) all,
        ),
      )

  passed :
      (x : RouteEntry) (entries : Ipv4RouteTable) (best result : Option RouteEntry)
      → (contains x.prefix destination ≡ true → improves best x ≡ false)
      → LoopSpec entries best result
      → LoopSpec (x ∷ entries) best result
  passed x entries best result n (inl (r, all)) =
      inl (r, AllMatches-cons x entries (λ e. improves best e ≡ false) n all)
  passed x entries best result n (inr (found, r, j, (here, m, all))) = inr (
    found,
    r,
    j,
    (
      find_exact-later x entries found.prefix (λ same. omega (
        arith,
        improves-shorter best x found (n (ap (λ q. contains q destination) same ∙ m)) j,
        ap (λ q. q.length) same,
      ))
          ∙ here,
      m,
      AllMatches-cons x entries (λ e. e.prefix.length ≤ found.prefix.length)
          (λ c. omega (arith, improves-shorter best x found (n c) j)) all,
    ),
  )

  match_loop-cons :
      (x : RouteEntry) (entries : Ipv4RouteTable) (best : Option RouteEntry)
      → match_loop destination (x ∷ entries) best
        ≡ match_loop destination entries
            (if contains x.prefix destination && improves best x then some x else best)
  unfolding match_loop
  match_loop-cons x entries best = refl

  match_loop_lem :
      (entries : Ipv4RouteTable) (best : Option RouteEntry)
      → LoopSpec entries best (match_loop destination entries best)
  match_loop_lem [] best = unfold match_loop find_exact in inl (refl, λ p e f c. cc)
  match_loop_lem (x ∷ entries) best =
      rw (match_loop-cons x entries best)
        (elim (Bool-cases (contains x.prefix destination && improves best x)) [
          | inl take ↦ rw take (
              taken x entries best (match_loop destination entries (some x)) (ground (arith, take))
                (ground (arith, take)) (match_loop_lem entries (some x)))
          | inr pass ↦ rw pass (
              passed x entries best (match_loop destination entries best)
                (λ c. ground (arith, pass, c)) (match_loop_lem entries best))
        ])

  -- No entry of the table matches.
  abbrev pub NoMatch : Ipv4RouteTable → Type 0
  NoMatch entries = AllMatches entries (λ e. ⊥)

  abbrev pub MatchSpec : Ipv4RouteTable → Option RouteEntry → Type 0
  MatchSpec entries none = NoMatch entries
  MatchSpec entries (some best) = IsBest entries best

  matched :
      (entries : Ipv4RouteTable) (result : Option RouteEntry)
      → LoopSpec entries none result
      → MatchSpec entries result
  unfolding improves
  matched entries result (inl (r, all)) = rw r (λ p e f c. ground (arith, all p e f c))
  matched entries result (inr (found, r, j, b)) = rw r b

  -- The result of the longest prefix match is an entry of the table that contains the destination
  -- and that no containing entry is longer than; there is no result just when no entry contains the
  -- destination.
  pub longest_prefix_match_lem :
      (entries : Ipv4RouteTable) → MatchSpec entries (longest_prefix_match entries destination)
  unfolding longest_prefix_match
  longest_prefix_match_lem entries =
      matched entries (match_loop destination entries none) (match_loop_lem entries none)

  -- Matching prefixes of one length are one.
  same_prefix :
      (p q : Ipv4Prefix)
      → contains p destination ≡ true
      → contains q destination ≡ true
      → p.length ≤ q.length
      → q.length ≤ p.length
      → p ≡ q
  unfolding prefix_eq contains address_eq
  same_prefix p q c c' h k =
      let n : p.length ≡ q.length = omega arith in
      let masked_p =
        (==_iff (bit_and destination.value (mask_value p.length)) p.network_address.value).0 c in
      let masked_q =
        (==_iff (bit_and destination.value (mask_value q.length)) q.network_address.value).0 c' in
      let value =
        sym masked_p ∙ (ap (λ m. bit_and destination.value (mask_value m)) n ∙ masked_q) in
      (prefix_eq_iff p q).0 (ground (arith, value, n))

  -- Two best entries of tables that hold the same routes are one.
  best_unique :
      (t u : Ipv4RouteTable) (a b : RouteEntry)
      → ((p : Ipv4Prefix) → find_exact t p ≡ find_exact u p)
      → IsBest t a
      → IsBest u b
      → a ≡ b
  best_unique t u a b same (here, c, all) (here', c', all') = some_inj (
      sym here
      ∙ (ap (find_exact t) (
            same_prefix a.prefix b.prefix c c' (all' a.prefix a (sym (same a.prefix) ∙ here) c)
              (all b.prefix b (same b.prefix ∙ here') c'))
          ∙ (same b.prefix ∙ here')))

  same_spec :
      (t u : Ipv4RouteTable) (r s : Option RouteEntry)
      → ((p : Ipv4Prefix) → find_exact t p ≡ find_exact u p)
      → MatchSpec t r
      → MatchSpec u s
      → r ≡ s
  same_spec t u none none same m n = refl
  same_spec t u (some a) none same m n = elim (n a.prefix a (sym (same a.prefix) ∙ m.0) m.1) [ ]
  same_spec t u none (some b) same m n = elim (m b.prefix b (same b.prefix ∙ n.0) n.1) [ ]
  same_spec t u (some a) (some b) same m n = ap some (best_unique t u a b same m n)

  -- The match depends only on the route that the table has for each prefix, not on the order in
  -- which they were added: two tables that answer alike for every prefix match every destination
  -- alike.
  pub longest_prefix_match_same :
      (t u : Ipv4RouteTable)
      → ((p : Ipv4Prefix) → find_exact t p ≡ find_exact u p)
      → longest_prefix_match t destination ≡ longest_prefix_match u destination
  longest_prefix_match_same t u same =
      same_spec t u (longest_prefix_match t destination) (longest_prefix_match u destination) same
        (longest_prefix_match_lem t) (longest_prefix_match_lem u)
