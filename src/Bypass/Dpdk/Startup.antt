-- ===== src/Bypass/Dpdk/Startup.antt =====
-- When `DPDKBypassClient::initialize` succeeds, and how often the process initialises the library.
use mdfh_distrib.Common.{
  ℕ, suc, ◌+◌, ◌≡◌, refl, Bool, true, false, not, ◌&&◌, ◌||◌, List, [], ◌∷◌, ◌++◌, arith,
  if◌then◌else◌,
}
use mdfh_distrib.Bypass.Config
use mdfh_distrib.Bypass.Config.{BypassConfig}
use mdfh_distrib.Bypass.Dpdk.{Call, eal_init, Answers, DpdkBypassClient, initialize}

abbrev pub is_eal_init : Call → Bool
is_eal_init eal_init = true
is_eal_init _ = false

abbrev pub times_eal : List Call → ℕ
times_eal [] = 0
times_eal (made ∷ calls) = if is_eal_init made then suc (times_eal calls) else times_eal calls

times_eal-append : (xs ys : List Call) → times_eal (xs ++ ys) ≡ times_eal xs + times_eal ys
times_eal-append [] ys = omega arith
times_eal-append (x ∷ xs) ys = ground (arith, times_eal-append xs ys)

-- A client as its constructor leaves it.
abbrev pub fresh : BypassConfig → DpdkBypassClient
fresh config = record {
  config = config;
  initialized = false;
  running = false;
  packets_received = 0;
  bytes_received = 0;
  mbuf_pool = false;
  calls = [];
  freed = [];
}

abbrev pub port_done : Answers → Bool
port_done a = a.port_ok && a.configure_ok && a.rx_ok && a.tx_ok

-- What `initialize` answers, what becomes of the flag, and how often it calls `rte_eal_init`.
abbrev Outcome : BypassConfig → BypassConfig → Answers → Bool → Type 0
Outcome initial config a flag =
    let (flag', c, done) = initialize config a flag (fresh initial) in
    (done ≡ Config.is_valid config && (flag || a.eal_ok) && a.pool_ok && port_done a)
    × (c.initialized ≡ done)
    × (flag' ≡ flag || (Config.is_valid config && a.eal_ok))
    × (times_eal c.calls ≡ (if Config.is_valid config && not flag then 1 else 0))

initialize_lem :
    (initial config : BypassConfig) (a : Answers) (flag : Bool) → Outcome initial config a flag
unfolding initialize
initialize_lem initial config a flag = ground arith

-- New clients initialised one after the other in a process: the flag, and all calls they made.
abbrev pub initialize_all : List (BypassConfig × Answers) → Bool → List Call
initialize_all [] flag = []
initialize_all ((config, a) ∷ rest) flag =
    let (flag', c, done) = initialize config a flag (fresh config) in
    c.calls ++ initialize_all rest flag'

-- The attempts with a valid configuration, up to the first whose call of `rte_eal_init` succeeds.
abbrev pub attempts : List (BypassConfig × Answers) → ℕ
attempts [] = 0
attempts ((config, a) ∷ rest) =
    if not (Config.is_valid config)
    then attempts rest
    else (if a.eal_ok then 1 else suc (attempts rest))

initialize_all_lem :
    (runs : List (BypassConfig × Answers)) (flag : Bool)
    → times_eal (initialize_all runs flag) ≡ (if flag then 0 else attempts runs)
initialize_all_lem [] true = refl
initialize_all_lem [] false = refl
initialize_all_lem ((config, a) ∷ rest) flag =
    let r = initialize config a flag (fresh config) in
    ground (
      arith,
      initialize_lem config config a flag,
      times_eal-append r.1.calls (initialize_all rest r.0),
      initialize_all_lem rest r.0,
    )

-- A process initialises new clients, one after the other, with any configurations and answers of
-- DPDK. `rte_eal_init` is called once for each valid configuration until it first succeeds, and never
-- after that; and the last of the clients is initialised just if its configuration is valid, the
-- library was or is now initialised, and the pool and every step of the port's set-up succeed.
pub initialize_once :
    (runs : List (BypassConfig × Answers)) (config : BypassConfig) (a : Answers) (flag : Bool)
    → (times_eal (initialize_all runs false) ≡ attempts runs)
      × (times_eal (initialize_all runs true) ≡ 0)
      × ((initialize config a flag (fresh config)).2
          ≡ Config.is_valid config && (flag || a.eal_ok) && a.pool_ok && port_done a)
initialize_once runs config a flag = (
  initialize_all_lem runs false,
  initialize_all_lem runs true,
  (initialize_lem config config a flag).0,
)
