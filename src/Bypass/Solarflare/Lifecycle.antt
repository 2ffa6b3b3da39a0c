-- ===== src/Bypass/Solarflare/Lifecycle.antt =====
-- What the Solarflare client acquires and gives back between `initialize` and `disconnect`.
use mdfh_distrib.Common.{
  ℕ, suc, ◌+◌, ◌≡◌, refl, Bool, true, false, not, ◌&&◌, ◌||◌, List, [], ◌∷◌, arith, if◌then◌else◌,
  Bool-cases, inl, inr,
}
use mdfh_distrib.Bypass.Config
use mdfh_distrib.Bypass.Config.{BypassConfig}
use mdfh_distrib.Bypass.Solarflare.{
  Resource, domain, interface, memory, registration, Call, acquired, freed, Answers,
  SolarflareBypassClient, setup_virtual_interface, setup_packet_buffers, initialize, disconnect,
}

abbrev pub same : Resource → Resource → Bool
same domain domain = true
same interface interface = true
same memory memory = true
same registration registration = true
same _ _ = false

-- How often a resource was acquired, and how often it was given back.
abbrev pub times_acquired : Resource → List Call → ℕ
times_acquired r [] = 0
times_acquired r (acquired s ∷ calls) =
    if same s r then suc (times_acquired r calls) else times_acquired r calls
times_acquired r (freed s ∷ calls) = times_acquired r calls

abbrev pub times_freed : Resource → List Call → ℕ
times_freed r [] = 0
times_freed r (freed s ∷ calls) =
    if same s r then suc (times_freed r calls) else times_freed r calls
times_freed r (acquired s ∷ calls) = times_freed r calls

-- A client as its constructor leaves it.
abbrev pub fresh : BypassConfig → SolarflareBypassClient
fresh config = record {
  config = config;
  pd = false;
  vi = false;
  packet_buffer = false;
  memreg = false;
  buffer_size = 0;
  initialized = false;
  running = false;
  packets_received = 0;
  bytes_received = 0;
  calls = [];
  posts = [];
}

-- Is it the domain or the interface?
abbrev pub set_up_first : Resource → Bool
set_up_first r = same r domain || same r interface

-- The interface was set up, and the buffers were not.
abbrev pub fails_at_buffers : Answers → Bool
fails_at_buffers a = a.domain_ok && a.interface_ok && not (a.memory_ok && a.registration_ok)

-- The property below, at given answers.
abbrev Outcome : BypassConfig → BypassConfig → Answers → Resource → Type 0
Outcome initial config a r =
    let (c, done) = initialize config a (fresh initial) in
    let after = disconnect c in
    (done
      ≡ Config.is_valid config
        && (a.domain_ok && a.interface_ok && a.memory_ok && a.registration_ok))
    × (after.initialized ≡ false)
    × (times_acquired r after.calls
        ≡ times_freed r after.calls
          + (if Config.is_valid config && fails_at_buffers a && set_up_first r then 1 else 0))

abbrev answers : (d i m g : Bool) → Answers
answers d i m g = record { domain_ok = d; interface_ok = i; memory_ok = m; registration_ok = g }

at_answers :
    (initial config : BypassConfig) (d i m g : Bool) (r : Resource)
    → Outcome initial config (answers d i m g) r
unfolding initialize setup_virtual_interface setup_packet_buffers disconnect
at_answers initial config false i m g r = elim (Bool-cases (Config.is_valid config)) [
  | inl v ↦ rw v (refl, refl, ground arith)
  | inr v ↦ rw v (refl, refl, ground arith)
]
at_answers initial config true false m g r = elim (Bool-cases (Config.is_valid config)) [
  | inl v ↦ rw v (refl, refl, ground arith)
  | inr v ↦ rw v (refl, refl, ground arith)
]
at_answers initial config true true false g r = elim (Bool-cases (Config.is_valid config)) [
  | inl v ↦ rw v (refl, refl, ground arith)
  | inr v ↦ rw v (refl, refl, ground arith)
]
at_answers initial config true true true false r = elim (Bool-cases (Config.is_valid config)) [
  | inl v ↦ rw v (refl, refl, ground arith)
  | inr v ↦ rw v (refl, refl, ground arith)
]
at_answers initial config true true true true r = elim (Bool-cases (Config.is_valid config)) [
  | inl v ↦ rw v (refl, refl, ground arith)
  | inr v ↦ rw v (refl, refl, ground arith)
]

-- A new client is initialised and then disconnected, as its destructor does it: it was initialised
-- just if the configuration is valid and every allocating call succeeded; and each resource was
-- given back as often as it was acquired, but that the domain and the interface are not given
-- back when the configuration is valid and only the set-up of the packet buffers failed.
pub initialize-disconnect :
    (initial config : BypassConfig) (a : Answers) (r : Resource)
    → let (c, done) = initialize config a (fresh initial) in
      let after = disconnect c in
      (done
        ≡ Config.is_valid config
          && (a.domain_ok && a.interface_ok && a.memory_ok && a.registration_ok))
      × (after.initialized ≡ false)
      × (times_acquired r after.calls
          ≡ times_freed r after.calls
            + (if Config.is_valid config && fails_at_buffers a && set_up_first r then 1 else 0))
initialize-disconnect initial config a r =
    at_answers initial config a.domain_ok a.interface_ok a.memory_ok a.registration_ok r
