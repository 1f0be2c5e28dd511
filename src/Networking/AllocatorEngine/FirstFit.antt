-- ===== src/Networking/AllocatorEngine/FirstFit.antt =====
-- findFreePoolRange finds the lowest run of free ports of the size asked for.
use native.Mathlib.Decide.{ℕ_discrete}
use mystic_hypervisor.Hosts.{Protocol, ForwardingRule}
use mystic_hypervisor.Networking.AllocatorEngine.Pool.{pool_rounds, scan_pool, find_free_pool_range}
use mystic_hypervisor.Networking.AllocatorEngine.{HostInfo, is_port_free}
use mystic_hypervisor.Networking.Requests.{AllocationPool}
use mystic_hypervisor.Prelude.Int.{ℤ, pos, int_eq, add_int, add_int-pos, ◌+ℤ◌, ◌-ℤ◌}
use mystic_hypervisor.Prelude.{
  ℕ, zero, suc, ◌+◌, ◌-◌, ◌≤◌, ◌<◌, ◌^◌, ◌≡◌, ◌≢◌, refl, sym, ap, ◌∙◌, ◌⊎◌, inl, inr, Option, some,
  Bool, true, false, ◌==◌, List, arith, Bool-cases, subst, ltb, if◌then◌else◌,
}

-- `n` ports from `x` on pass the test.
abbrev pub Run : (ℤ → Bool) → ℕ → ℕ → Type 0
Run free n x = (i : ℕ) → i < n → free (pos (x + i)) ≡ true

-- The result is the lowest start, from `lo` on, of a run of `n` ports below `hi`; or 0, and there is
-- no such run.
abbrev pub IsFirstFit : (ℤ → Bool) → ℕ → ℕ → ℕ → ℤ → Type 0
IsFirstFit free n lo hi found =
    ((found ≡ pos 0) × ((y : ℕ) → lo ≤ y → y + n ≤ hi → ¬ Run free n y))
    ⊎ (x : ℕ) × (found ≡ pos x)
      × (lo ≤ x)
      × (x + n ≤ hi)
      × Run free n x
      × ((y : ℕ) → lo ≤ y → y < x → ¬ Run free n y)

module _ (free : ℤ → Bool) (n lo : ℕ) (small : n < 2 ^ 31) where
  -- A window that reaches over a port that is not free is no run.
  no-Run_over : (p y : ℕ) → y ≤ p → p < y + n → free (pos p) ≡ false → ¬ Run free n y
  no-Run_over p y h k busy run =
      let e = run (p - y) (omega arith) in
      let q : y + (p - y) ≡ p = omega arith in cc (e, busy, ap (λ x. free (pos x)) q)

  move :
      {hi hi' : ℕ} {v v' : ℤ}
      → hi ≡ hi'
      → v ≡ v'
      → IsFirstFit free n lo hi v
      → IsFirstFit free n lo hi' v'
  move {hi} {hi'} {v} {v'} e f t =
      subst (λ h. IsFirstFit free n lo h v') e (subst (λ w. IsFirstFit free n lo hi w) f t)

  abbrev first : ℕ → ℤ → ℤ → ℤ
  first p count candidate = if count == pos 0 then pos p else candidate

  -- The three ways on.
  scan_hit :
      (f p c : ℕ) (candidate : ℤ)
      → free (pos p) ≡ true
      → (add_int (pos c) (pos 1) == pos n) ≡ true
      → scan_pool free (pos n) (suc f) (pos p) (pos c) candidate ≡ first p (pos c) candidate
  unfolding scan_pool
  scan_hit f p c candidate e h = rw (e, scan_pool) (rw h refl)

  scan_more :
      (f p c : ℕ) (candidate : ℤ)
      → free (pos p) ≡ true
      → (add_int (pos c) (pos 1) == pos n) ≡ false
      → scan_pool free (pos n) (suc f) (pos p) (pos c) candidate
        ≡ scan_pool free
            (pos n)
            f
            (add_int (pos p) (pos 1))
            (add_int (pos c) (pos 1))
            (first p (pos c) candidate)
  unfolding scan_pool
  scan_more f p c candidate e h = rw (e, scan_pool) (rw h refl)

  scan_restart :
      (f p c : ℕ) (candidate : ℤ)
      → free (pos p) ≡ false
      → scan_pool free (pos n) (suc f) (pos p) (pos c) candidate
        ≡ scan_pool free (pos n) f (add_int (pos p) (pos 1)) (pos 0) (pos 0)
  unfolding scan_pool
  scan_restart f p c candidate e = rw (e, scan_pool) refl

  Run_snoc :
      (b c : ℕ)
      → ((i : ℕ) → i < c → free (pos (b + i)) ≡ true)
      → free (pos (b + c)) ≡ true
      → (i : ℕ) → i < suc c
      → free (pos (b + i)) ≡ true
  Run_snoc b c run e i h = elim (ℕ_discrete i c) [
    | yes q ↦ subst (λ x. free (pos (b + x)) ≡ true) (sym q) e
    | no q ↦ run i (omega arith)
  ]

  pub scan_pool_lem :
      (rounds b c : ℕ) (candidate : ℤ)
      → lo ≤ b
      → c < n
      → b + c + rounds < 2 ^ 31
      → (0 < c → candidate ≡ pos b)
      → ((i : ℕ) → i < c → free (pos (b + i)) ≡ true)
      → ((y : ℕ) → lo ≤ y → y < b → ¬ Run free n y)
      → IsFirstFit free n lo
          (b + c + rounds)
          (scan_pool free (pos n) rounds (pos (b + c)) (pos c) candidate)
  unfolding scan_pool
  scan_pool_lem zero b c candidate above short bound cand run before =
      inl (refl, λ y l h r. before y l (omega arith) r)
  scan_pool_lem (suc f) b c candidate above short bound cand run before =
      let start : first (b + c) (pos c) candidate ≡ pos b = ground (arith, cand) in
      let next : add_int (pos (b + c)) (pos 1) ≡ pos (suc (b + c)) =
        (add_int-pos (b + c) 1 (omega arith) (omega arith) ∙ ap pos (omega arith)) in
      let more : add_int (pos c) (pos 1) ≡ pos (suc c) =
        (add_int-pos c 1 (omega arith) (omega arith) ∙ ap pos (omega arith)) in
      elim (Bool-cases (free (pos (b + c)))) [
        | inl e ↦ elim (Bool-cases (add_int (pos c) (pos 1) == pos n)) [
          | inl h ↦
              let size : suc c ≡ n = ground (arith, h, more) in
              inr (
                b,
                scan_hit f (b + c) c candidate e h ∙ start,
                above,
                omega arith,
                λ i k. Run_snoc b c run e i (omega arith),
                before,
              )
          | inr h ↦
              let size : suc c ≢ n = ground (arith, h, more) in
              let rest =
                scan_pool_lem f b (suc c) (first (b + c) (pos c) candidate) above (omega arith)
                  (omega arith) (λ k. start) (Run_snoc b c run e) before in
              let same : pos (suc (b + c)) ≡ pos (b + suc c) = ap pos (omega arith) in
              move (omega arith)
                (sym (scan_more f (b + c) c candidate e h ∙ rw (next, more, same) refl)) rest
        ]
        | inr e ↦
            let rest =
              scan_pool_lem f (suc (b + c)) 0 (pos 0) (omega arith) (omega arith) (omega arith)
                (λ k. absurd (omega arith)) (λ i k. absurd (omega arith))
                (λ y l k r. elim (Bool-cases (ltb y b)) [
                  | inl t ↦ before y l (ground (arith, t)) r
                  | inr t ↦ no-Run_over (b + c) y (ground (arith, t)) (ground (arith, t)) e r
                ]) in
            let same : pos (suc (b + c)) ≡ pos (suc (b + c) + 0) = ap pos (omega arith) in
            move (omega arith) (sym (scan_restart f (b + c) c candidate e ∙ rw (next, same) refl))
              rest
      ]

rounds-pos : (lo hi : ℕ) → lo ≤ hi → pool_rounds (pos lo) (pos hi) ≡ suc (hi - lo)
unfolding pool_rounds ◌+ℤ◌ ◌-ℤ◌
rounds-pos lo hi h = ground arith

module _ (pool : AllocationPool) (n lo hi : ℕ) (proto : Protocol) (rules : List ForwardingRule)
    (host_info : Option HostInfo) (s : pool.start_port ≡ pos lo) (e : pool.end_port ≡ pos hi)
    (p : 0 < lo) where
  abbrev found : ℤ
  found = find_free_pool_range (some pool) (pos n) proto rules host_info

  abbrev is_free : ℤ → Bool
  is_free q = is_port_free q proto rules host_info

  found_empty : hi < lo → found ≡ pos 0
  unfolding find_free_pool_range
  found_empty h = rw (s, e) (ground (arith, h))

  found_scan : lo ≤ hi → found ≡ scan_pool is_free (pos n) (suc (hi - lo)) (pos lo) (pos 0) (pos 0)
  unfolding find_free_pool_range
  found_scan h = rw (s, e, rounds-pos lo hi h) (ground (arith, h, p))

-- In a pool of ports that are below 2^31 - 1, findFreePoolRange returns the lowest start of as many
-- free ports in a row as were asked for (at least one), all of them in the pool; or it returns 0, and
-- the pool has no such ports.
pub find_free_pool_range-IsFirstFit :
    (pool : AllocationPool) (n lo hi : ℕ) (proto : Protocol) (rules : List ForwardingRule)
    (host_info : Option HostInfo)
    → pool.start_port ≡ pos lo
    → pool.end_port ≡ pos hi
    → 0 < lo
    → hi < 2 ^ 31 - 1
    → 0 < n
    → n < 2 ^ 31
    → IsFirstFit
        (λ p. is_port_free p proto rules host_info)
        n
        lo
        (hi + 1)
        (find_free_pool_range (some pool) (pos n) proto rules host_info)
find_free_pool_range-IsFirstFit pool n lo hi proto rules host_info s e p h k small =
    elim (Bool-cases (ltb hi lo)) [
      | inl t ↦ inl (
        found_empty pool n lo hi proto rules host_info s e p (ground (arith, t)),
        λ y a b r. absurd (ground (arith, t, a, b, k)),
      )
      | inr t ↦
          let le : lo ≤ hi = ground (arith, t) in
          let free : ℤ → Bool = λ q. is_port_free q proto rules host_info in
          move free n lo small (omega arith)
            (ap (λ x. scan_pool free (pos n) (suc (hi - lo)) (pos x) (pos 0) (pos 0)) (omega arith)
              ∙ sym (found_scan pool n lo hi proto rules host_info s e p le))
            (scan_pool_lem free n lo small (suc (hi - lo)) lo 0 (pos 0) (omega arith) k
              (omega arith) (λ x. absurd (omega arith)) (λ i x. absurd (omega arith))
              (λ y a b. absurd (omega arith)))
    ]
