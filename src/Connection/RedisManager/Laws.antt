-- ===== src/Connection/RedisManager/Laws.antt =====
-- What the manager of shared/connection/redis.go holds, and which clients are open.
use re_master.Prelude.{
  ℕ, ◌≡◌, refl, sym, ap, ◌∙◌, Bool, true, false, Option, none, some, nat_eq, arith, if◌then◌else◌,
}
use re_master.Exec.{Result, ok, err}
use re_master.Connection.RedisManager.{
  Driver, Options, RedisConfig, RedisManager, open_client, connect, disconnect, pinged, options,
  reconnect, connect_from, closed, disconnect_from,
}

-- What the driver promises of the clients: `is_open w c` tells whether client `c` has been made and not
-- closed.
pub record Tracks {W : Type 0} (d : Driver W) (is_open : W → ℕ → Bool) : Type 0 where
  pub after_new :
      (o : Options) (w : W) (c : ℕ)
      → is_open (d.new_client o w).1 c
        ≡ (if nat_eq c (d.new_client o w).0 then true else is_open w c)
  pub after_ping : (a : ℕ) (w : W) (c : ℕ) → is_open (d.ping a w).1 c ≡ is_open w c
  pub after_close :
      (a : ℕ) (w : W) (c : ℕ)
      → is_open (d.close a w).1 c ≡ (if nat_eq c a then false else is_open w c)

-- The only client that may be open is the one that the manager holds.
abbrev pub NoLeak : {W : Type 0} → (W → ℕ → Bool) → RedisManager × W → Type 0
NoLeak is_open (m, w) = (c : ℕ) → is_open w c ≡ true → m.client ≡ some c

module _ {W : Type 0} {d : Driver W} {is_open : W → ℕ → Bool} (laws : Tracks d is_open) where
  pinged-NoLeak :
      (cfg : RedisConfig) (a : ℕ) (r : Result (Unit {0}) × W)
      → ((c : ℕ) → is_open r.1 c ≡ true → c ≡ a)
      → NoLeak is_open (pinged d cfg a r).1
  pinged-NoLeak cfg a (ok u, w) only c h = ap some (sym (only c h))
  pinged-NoLeak cfg a (err e, w) only c h = absurd (ground (arith, laws.after_close a w c, only c))

  open_client-NoLeak :
      (cfg : RedisConfig) (w : W)
      → ((c : ℕ) → is_open w c ≡ false)
      → NoLeak is_open (open_client d cfg w).1
  unfolding open_client
  open_client-NoLeak cfg w none_open =
      let (a, w₁) = d.new_client (options cfg) w in
      pinged-NoLeak cfg a (d.ping a w₁)
        λ c h. ground (arith, laws.after_ping a w₁ c, laws.after_new (options cfg) w c, none_open c)

  reconnect-NoLeak :
      (cfg : RedisConfig) (a : ℕ) (r : Result (Unit {0}) × W)
      → ((c : ℕ) → is_open r.1 c ≡ true → c ≡ a)
      → NoLeak is_open (reconnect d cfg a r).1
  reconnect-NoLeak cfg a (ok u, w) only = λ c h. ap some (sym (only c h))
  reconnect-NoLeak cfg a (err e, w) only =
      open_client-NoLeak cfg (d.close a w).1 λ c. ground (arith, laws.after_close a w c, only c)

  connect_from-NoLeak :
      (cfg : RedisConfig) (client : Option ℕ) (w : W)
      → ((c : ℕ) → is_open w c ≡ true → client ≡ some c)
      → NoLeak is_open (connect_from d cfg client w).1
  connect_from-NoLeak cfg none w kept = open_client-NoLeak cfg w λ c. ground (arith, kept c)
  connect_from-NoLeak cfg (some a) w kept =
      reconnect-NoLeak cfg a (d.ping a w) λ c h. ground (arith, laws.after_ping a w c, kept c)

  closed-NoLeak :
      (m : RedisManager) (r : Result (Unit {0}) × W)
      → ((c : ℕ) → is_open r.1 c ≡ false)
      → NoLeak is_open (closed d m r).1
  closed-NoLeak m (ok u, w) shut c h = absurd (ground (arith, shut c))
  closed-NoLeak m (err e, w) shut c h = absurd (ground (arith, shut c))

  disconnect_from-NoLeak :
      (m : RedisManager) (client : Option ℕ) (w : W)
      → m.client ≡ client
      → ((c : ℕ) → is_open w c ≡ true → client ≡ some c)
      → NoLeak is_open (disconnect_from d m client w).1
  disconnect_from-NoLeak m none w same kept = λ c h. same ∙ kept c h
  disconnect_from-NoLeak m (some a) w same kept =
      closed-NoLeak m (d.close a w) λ c. ground (arith, laws.after_close a w c, kept c)

  closed-shut :
      (m : RedisManager) (r : Result (Unit {0}) × W)
      → ((c : ℕ) → is_open r.1 c ≡ false)
      → (c : ℕ) → is_open (closed d m r).1.1 c ≡ false
  closed-shut m (ok u, w) shut = shut
  closed-shut m (err e, w) shut = shut

  disconnect_from-shut :
      (m : RedisManager) (client : Option ℕ) (w : W)
      → ((c : ℕ) → is_open w c ≡ true → client ≡ some c)
      → (c : ℕ) → is_open (disconnect_from d m client w).1.1 c ≡ false
  disconnect_from-shut m none w kept = λ c. ground (arith, kept c)
  disconnect_from-shut m (some a) w kept =
      closed-shut m (d.close a w) λ c. ground (arith, laws.after_close a w c, kept c)

  -- After a disconnection, also one that fails, no client is open.
  pub disconnect-shut :
      (m : RedisManager) (w : W)
      → NoLeak is_open (m, w)
      → (c : ℕ) → is_open (disconnect d (m, w)).1.1 c ≡ false
  unfolding disconnect
  disconnect-shut m w kept = disconnect_from-shut m m.client w kept

  -- With what the driver promises of its clients (`Tracks`): connecting and disconnecting, whether they
  -- succeed or fail, keep it that no client is open but the
  -- one that the manager holds.
  pub manager-NoLeak :
      (s : RedisManager × W)
      → NoLeak is_open s
      → NoLeak is_open (connect d s).1 × NoLeak is_open (disconnect d s).1
  unfolding connect disconnect
  manager-NoLeak (m, w) kept =
      (connect_from-NoLeak m.config m.client w kept, disconnect_from-NoLeak m m.client w refl kept)

module _ {W : Type 0} (d : Driver W) where
  -- What the manager holds after an attempt to connect: some client, or none.
  abbrev pub Outcome : Result (Unit {0}) × (RedisManager × W) → Type 0
  Outcome (ok u, (m, w)) = (c : ℕ) × (m.client ≡ some c)
  Outcome (err e, (m, w)) = m.client ≡ none

  pinged-Outcome :
      (cfg : RedisConfig) (a : ℕ) (r : Result (Unit {0}) × W) → Outcome (pinged d cfg a r)
  pinged-Outcome cfg a (ok u, w) = (a, refl)
  pinged-Outcome cfg a (err e, w) = refl

  open_client-Outcome : (cfg : RedisConfig) (w : W) → Outcome (open_client d cfg w)
  unfolding open_client
  open_client-Outcome cfg w =
      let (a, w₁) = d.new_client (options cfg) w in pinged-Outcome cfg a (d.ping a w₁)

  reconnect-Outcome :
      (cfg : RedisConfig) (a : ℕ) (r : Result (Unit {0}) × W) → Outcome (reconnect d cfg a r)
  reconnect-Outcome cfg a (ok u, w) = (a, refl)
  reconnect-Outcome cfg a (err e, w) = open_client-Outcome cfg (d.close a w).1

  connect_from-Outcome :
      (cfg : RedisConfig) (client : Option ℕ) (w : W) → Outcome (connect_from d cfg client w)
  connect_from-Outcome cfg none w = open_client-Outcome cfg w
  connect_from-Outcome cfg (some a) w = reconnect-Outcome cfg a (d.ping a w)

  -- Connecting leaves a client if it succeeds and none if it fails, whatever the manager held before.
  pub connect-Outcome : (s : RedisManager × W) → Outcome (connect d s)
  unfolding connect
  connect-Outcome (m, w) = connect_from-Outcome m.config m.client w
