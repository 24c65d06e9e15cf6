-- ===== src/Health/Callbacks.antt =====
-- internal/health/probe.go: the callbacks that a sequence of pings makes, for any interleaving of
-- the uplinks' goroutines: each doPing updates the states under the lock.
use mathlib.Core.Path.{subst}
use warp_router.Prelude.{
  ℤ, String, string_eq, true, false, Option, none, some, List, [], ◌∷◌, ◌≡◌, ◌≢◌, refl, lookup,
  insert, lookup-insert, All, if◌then◌else◌, ◌==◌, arith, text_iff, Bool-cases, inl, inr,
}
use warp_router.Health.Status.{Status, UplinkState, ProbeConfig, status_eq, status_beq_iff}
use warp_router.Health.Prober.{States, Change, PingResult, record_ping, callback, do_ping}

-- One ping: the uplink's settings, the time and the result.
pub record Probe : Type 0 where
  pub cfg : ProbeConfig
  pub now : ℤ
  pub result : PingResult

abbrev note : Option Change → List Change → List Change
note none cs = cs
note (some c) cs = c ∷ cs

infixl 5 ◌>>=◌
abbrev ◌>>=◌ : {A B : Type 0} → Option A → (A → Option B) → Option B
none >>= k = none
some a >>= k = k a

-- The pings in the order in which they take the lock, with the callbacks that they make.
pub run_probes : List Probe → States → Option (States × List Change)
run_probes [] states = some (states, [])
run_probes (p ∷ ps) states = do
  step ← do_ping true p.cfg p.now p.result states
  rest ← run_probes ps step.0
  some (rest.0, note step.1 rest.1)

-- The callbacks that name an uplink.
abbrev pub for_name : String → List Change → List Change
for_name name [] = []
for_name name (c ∷ cs) = if c.name == name then c ∷ for_name name cs else for_name name cs

-- From a status to another: each change starts where the last one ended, and is one.
abbrev pub Chain : Status → List Change → Status → Type 0
Chain a [] b = a ≡ b
Chain a (c ∷ cs) b = (c.old ≡ a) × (c.new ≢ a) × Chain c.new cs b

abbrev pub IsRegistered : States → String → Type 0
IsRegistered states name = (s : UplinkState) × (lookup name states ≡ some s)

pub do_ping_lem :
    (p : Probe) (states : States) (s : UplinkState)
    → lookup p.cfg.name states ≡ some s
    → let s' = record_ping p.cfg.failures p.now p.result s in
      do_ping true p.cfg p.now p.result states
      ≡ some (insert p.cfg.name s' states, callback true p.cfg.name s.status s'.status)
unfolding do_ping
do_ping_lem p states s e = rw (e, do_ping) refl

-- The callback of a ping leads a chain from the status before it.
Chain-note :
    (name : String) (a b z : Status) (cs : List Change)
    → Chain b (for_name name cs) z
    → Chain a (for_name name (note (callback true name a b) cs)) z
unfolding callback
Chain-note name a b z cs h = elim (Bool-cases (a == b)) [
  | inl same ↦ rw same (rw ((status_beq_iff a b).0 same) h)
  | inr differs ↦
      rw (differs, (text_iff name name).1 refl) (refl, λ e. ground (arith, status_beq_iff a b), h)
]

-- It does not name another uplink.
for_name-note_ne :
    (name other : String) (a b : Status) (cs : List Change)
    → (name == other) ≡ false
    → for_name other (note (callback true name a b) cs) ≡ for_name other cs
unfolding callback
for_name-note_ne name other a b cs h = ground arith

IsRegistered-insert :
    (name other : String) (s : UplinkState) (states : States)
    → IsRegistered states other
    → IsRegistered (insert name s states) other
IsRegistered-insert name other s states (t, e) = elim (Bool-cases (name == other)) [
  | inl same ↦ (s, rw (lookup-insert, same))
  | inr differs ↦ (t, rw (lookup-insert, differs) e)
]

All-IsRegistered :
    (name : String) (s : UplinkState) (states : States) (ps : List Probe)
    → All (λ p. IsRegistered states p.cfg.name) ps
    → All (λ p. IsRegistered (insert name s states) p.cfg.name) ps
All-IsRegistered name s states [] h = tt
All-IsRegistered name s states (p ∷ ps) (h, hs) =
    (IsRegistered-insert name p.cfg.name s states h, All-IsRegistered name s states ps hs)

-- The chains of a run, behind one more ping at its front.
abbrev pub Chains : States → States → List Change → Type 0
Chains states final changes =
    (name : String) (s : UplinkState)
    → lookup name states ≡ some s
    → (s' : UplinkState) × (lookup name final ≡ some s')
      × Chain s.status (for_name name changes) s'.status

module _ (cname : String) (s s' : UplinkState) (states final : States) (changes : List Change) where
  abbrev changes' : List Change
  changes' = note (callback true cname s.status s'.status) changes

  Chains-self :
      Chains (insert cname s' states) final changes
      → lookup cname states ≡ some s
      → (t : UplinkState) → lookup cname states ≡ some t
      → (t' : UplinkState) × (lookup cname final ≡ some t')
        × Chain t.status (for_name cname changes') t'.status
  Chains-self ih e t f =
      let (u, found, chain) = ih cname s' (rw (lookup-insert, (text_iff cname cname).1 refl)) in
      let t≡s : t ≡ s = cc in
      (u, found, rw t≡s (Chain-note cname s.status s'.status u.status changes chain))

  Chains-note :
      Chains (insert cname s' states) final changes
      → lookup cname states ≡ some s
      → Chains states final changes'
  Chains-note ih e name t f = elim (Bool-cases (cname == name)) [
    | inl same ↦
        subst
          (λ (n : String).
            lookup n states ≡ some t
            → (t' : UplinkState) × (lookup n final ≡ some t')
              × Chain t.status (for_name n changes') t'.status)
          ((text_iff cname name).0 same) (Chains-self ih e t) f
    | inr differs ↦
        let (u, found, chain) = ih name t (rw (lookup-insert, differs) f) in
        (u, found, rw (for_name-note_ne cname name s.status s'.status changes differs) chain)
  ]

-- What a run of pings comes to: it returns, and each uplink keeps a state, whose status the
-- callbacks that name the uplink lead to, from the status before the run.
pub record Outcome (ps : List Probe) (states : States) : Type 0 where
  pub final : States
  pub changes : List Change
  pub ran : run_probes ps states ≡ some (final, changes)
  pub chains : Chains states final changes

-- In every interleaving of pings of registered uplinks no ping stops the program, and the
-- callbacks that name an uplink lead from its status before to its status after, each a change.
pub run_probes-chains :
    (ps : List Probe) (states : States)
    → All (λ p. IsRegistered states p.cfg.name) ps
    → Outcome ps states
unfolding run_probes
run_probes-chains [] states h = record {
  final = states;
  changes = [];
  ran = refl;
  chains = λ name s e. (s, e, refl);
}
run_probes-chains (p ∷ ps) states ((s, e), hs) =
    let s' : UplinkState = record_ping p.cfg.failures p.now p.result s in
    let later : Outcome ps (insert p.cfg.name s' states) =
      run_probes-chains ps (insert p.cfg.name s' states)
        (All-IsRegistered p.cfg.name s' states ps hs) in
    let c = callback true p.cfg.name s.status s'.status in
    record {
      final = later.final;
      changes = note c later.changes;
      ran = rw (do_ping_lem p states s e) (rw later.ran refl);
      chains = Chains-note p.cfg.name s s' states later.final later.changes later.chains e;
    }
