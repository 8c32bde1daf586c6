-- ===== src/Manager/Reconcile.antt =====
-- Reconciliation on a reload of the configuration: ReconcileSessions and sessionKeySet of
-- internal/bfd/manager_session.go, ReconcileEchoSessions and echoSessionKeySet of manager_echo.go,
-- ReconcileMicroBFDGroups and microBFDGroupKeySet of manager_micro.go. A text is a number; `text` is the text of a key, which Go's
-- Addr.String and concatenation make. A map is walked in the order of its list.
use gobfd.Common.{ℕ, ◌+◌, List, [], ◌∷◌, Option, if◌then◌else◌, Result, ok, err}
use gobfd.Assoc.{nat_key, lookup, insert, is_some}
use gobfd.Session.{SessionConfig}
use gobfd.Echo.{EchoSessionConfig, EchoSession}
use gobfd.MicroBfd.{MicroBfdConfig, MicroBfdGroup}
use gobfd.Manager.Echo.{create_echo_session, destroy_echo_session}
use gobfd.Manager.Micro.{create_micro_bfd_group, destroy_micro_bfd_group}
use gobfd.Manager.{
  SessionKey, Entry, Manager, ManagerError, Supply, create_session, destroy_session,
}

-- What is desired: the text of a key, and the configuration.
pub record ReconcileConfig (Cfg : Type 0) : Type 0 where
  pub rc_key : ℕ
  pub rc_config : Cfg

module _ {Cfg : Type 0} where
  -- The map of what is desired: a later entry with a key replaces an earlier one.
  unfoldable pub desired_keys : List (ReconcileConfig Cfg) → List (ℕ × Cfg) → List (ℕ × Cfg)
  desired_keys [] keys = keys
  desired_keys (rc ∷ rest) keys = desired_keys rest (insert rc.rc_key rc.rc_config keys)

-- The loop of sessionKeySet over the table of peers.
unfoldable pub key_set :
    (SessionKey → ℕ) → (ℕ → Entry) → List (SessionKey × ℕ) → List (ℕ × ℕ) → List (ℕ × ℕ)
key_set text heap [] keys = keys
key_set text heap ((key, p) ∷ rest) keys =
    key_set text heap rest (insert (text key) (heap p).endpoint.session.local_discr keys)

unfoldable pub session_key_set : (SessionKey → ℕ) → Manager → List (ℕ × ℕ)
unfolding key_set
session_key_set text m = key_set text m.heap m.sessions_by_peer []

-- The manager, how many calls succeeded, and the errors of the others, the latest first.
pub record Outcome : Type 0 where
  pub manager : Manager
  pub count : ℕ
  pub errs : List ManagerError

abbrev pub tally_call {ℓ} : {A : Type ℓ} → Outcome → Manager × Result ManagerError A → Outcome
tally_call o (m, ok a) = record o { manager = m; count = o.count + 1 }
tally_call o (m, err failure) = record o { manager = m; errs = failure ∷ o.errs }

-- The two loops, which are the same in the three methods but for the calls.
module _ {Cfg : Type 0} where
  -- What is not desired is destroyed.
  unfoldable pub destroy_unwanted :
      (ℕ → Manager → Manager × Result ManagerError (Unit {0}))
      → List (ℕ × Cfg)
      → List (ℕ × ℕ)
      → Outcome
      → Outcome
  destroy_unwanted destroy desired [] o = o
  destroy_unwanted destroy desired ((key, id) ∷ rest) o =
      destroy_unwanted destroy desired rest
        (if is_some (lookup key desired) then o else tally_call o (destroy id o.manager))

  -- What is missing is created; `create` is given the number of the turn of the loop.
  unfoldable pub create_missing {ℓ} :
      {A : Type ℓ}
      → (ℕ → Cfg → Manager → Manager × Result ManagerError A)
      → ℕ
      → List (ℕ × ℕ)
      → List (ℕ × Cfg)
      → Outcome
      → Outcome
  create_missing create turn current [] o = o
  create_missing create turn current ((key, cfg) ∷ rest) o =
      create_missing create (turn + 1) current rest
        (if is_some (lookup key current) then o else tally_call o (create turn cfg o.manager))

-- The manager, the numbers created and destroyed, and the errors.
pub record Reconciled : Type 0 where
  pub after : Manager
  pub created : ℕ
  pub destroyed : ℕ
  pub all_errs : List ManagerError

abbrev pub begun : Manager → Outcome
begun m = record { manager = m; count = 0; errs = [] }

unfoldable pub reconcile {ℓ} :
    {Cfg : Type 0} {A : Type ℓ}
    → (ℕ → Manager → Manager × Result ManagerError (Unit {0}))
    → (ℕ → Cfg → Manager → Manager × Result ManagerError A)
    → List (ReconcileConfig Cfg)
    → List (ℕ × ℕ)
    → Manager
    → Reconciled
unfolding desired_keys destroy_unwanted create_missing
reconcile destroy create desired current m =
    let wanted = desired_keys desired [] in
    let o = destroy_unwanted destroy wanted current (begun m) in
    let o' = create_missing create 0 current wanted (record o { count = 0 }) in
    record { after = o'.manager; created = o'.count; destroyed = o.count; all_errs = o'.errs }

unfoldable pub reconcile_sessions :
    (SessionKey → ℕ) → (ℕ → Supply) → List (ReconcileConfig SessionConfig) → Manager → Reconciled
unfolding reconcile
reconcile_sessions text supply desired m =
    reconcile destroy_session (λ turn cfg. create_session (supply turn) cfg) desired
      (session_key_set text m) m

-- The addresses and the interface of an echo session, of which `text` makes the text with "echo|".
abbrev pub echo_key : EchoSession → SessionKey
echo_key es = record {
  key_peer_addr = es.peer_addr;
  key_local_addr = es.local_addr;
  key_if_name = es.if_name;
}

unfoldable pub echo_key_set :
    (SessionKey → ℕ) → List (ℕ × EchoSession) → List (ℕ × ℕ) → List (ℕ × ℕ)
echo_key_set text [] keys = keys
echo_key_set text ((d, es) ∷ rest) keys =
    echo_key_set text rest (insert (text (echo_key es)) es.local_discr keys)

-- `reads` numbers the turns of the loop that creates, each with its reads of the random source.
unfoldable pub reconcile_echo_sessions :
    (SessionKey → ℕ)
    → (ℕ → ℕ → Option ℕ)
    → List (ReconcileConfig EchoSessionConfig)
    → Manager
    → Reconciled
unfolding reconcile echo_key_set
reconcile_echo_sessions text reads desired m =
    reconcile destroy_echo_session (λ turn cfg. create_echo_session (reads turn) cfg) desired
      (echo_key_set text m.echo_sessions []) m

-- The names of the groups, each under itself.
unfoldable pub micro_bfd_group_key_set : List (ℕ × MicroBfdGroup) → List (ℕ × ℕ) → List (ℕ × ℕ)
micro_bfd_group_key_set [] keys = keys
micro_bfd_group_key_set ((lag, group) ∷ rest) keys =
    micro_bfd_group_key_set rest (insert lag lag keys)

unfoldable pub reconcile_micro_bfd_groups :
    List (ReconcileConfig MicroBfdConfig) → Manager → Reconciled
unfolding reconcile micro_bfd_group_key_set
reconcile_micro_bfd_groups desired m =
    reconcile destroy_micro_bfd_group (λ turn cfg. create_micro_bfd_group cfg) desired
      (micro_bfd_group_key_set m.micro_groups []) m
