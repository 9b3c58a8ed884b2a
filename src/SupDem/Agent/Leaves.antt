-- ===== src/SupDem/Agent/Leaves.antt =====
-- What a client of hw1/supdemserv.c leaves when its agent ends.
use advanced_unix_ceng.Base.{
  ℕ, ◌≡◌, ◌≢◌, refl, ap, ◌∙◌, List, none, some, Bool, true, false, if◌then◌else◌, arith, get_elem?,
  set, Bool-cases, inl, inr,
}
use advanced_unix_ceng.Base.Int.{ℤ, pos, eqb_ℤ}
use advanced_unix_ceng.SupDem.Agent.{
  Cancelled, Threads, both_start, no_command_thread, no_notification_thread, Ending, no_slot,
  exited, locked, ended, run_threads,
}
use advanced_unix_ceng.SupDem.Agent.HalfRun.{KeepsOthers, cancel_command_thread-KeepsOthers}
use advanced_unix_ceng.SupDem.Agent.Identities.{identities, serve_lines-Keeps}
use advanced_unix_ceng.SupDem.Agent.Registering.{nobody, set_twice, set_same, identities-close}
use advanced_unix_ceng.SupDem.Serve.{serve_lines}
use advanced_unix_ceng.SupDem.Slots.{first_slot, client_free, remove_client_resources}
use advanced_unix_ceng.SupDem.Slots.Laws.{
  supplies_of, demands_of, watches_of, remove_client_resources-counts,
}
use advanced_unix_ceng.SupDem.State.{SharedMem, live}

-- What is left of a client that was in slot `i`.
pub record IsGone (shm shm' : SharedMem) (i : ℕ) (other : ℤ) : Type 0 where
  pub same_identities : identities shm'.clients ≡ identities shm.clients
  pub no_supplies : supplies_of (pos i) shm'.supplies ≡ 0
  pub no_demands : demands_of (pos i) shm'.demands ≡ 0
  pub own_watches :
      watches_of other shm'.watches
      ≡ (if eqb_ℤ (pos i) other then 0 else watches_of other shm.watches)

remove-IsGone :
    (shm served : SharedMem) (i : ℕ) (sockfd other : ℤ)
    → live other ≡ true
    → get_elem? (identities shm.clients) i ≡ some nobody
    → identities served.clients ≡ set (identities shm.clients) i (pos i, sockfd)
    → (eqb_ℤ (pos i) other ≡ false → watches_of other served.watches ≡ watches_of other shm.watches)
    → IsGone shm (remove_client_resources served i) i other
remove-IsGone shm served i sockfd other h free ids watches =
    let own = remove_client_resources-counts served i (pos i) (ground arith) in
    let self : eqb_ℤ (pos i) (pos i) ≡ true = ground arith in
    let theirs = remove_client_resources-counts served i other h in
    record {
      same_identities =
          unfold remove_client_resources in
          (identities-close served.clients i
            ∙ ap (λ xs. set xs i nobody) ids
            ∙ set_twice (identities shm.clients) i (pos i, sockfd) nobody
            ∙ set_same (identities shm.clients) i nobody free);
      no_supplies = own.0 ∙ rw self refl;
      no_demands = own.1 ∙ rw self refl;
      own_watches = elim (Bool-cases (eqb_ℤ (pos i) other)) [
        | inl mine ↦ theirs.2 ∙ rw mine refl
        | inr not_mine ↦ theirs.2 ∙ rw not_mine (watches not_mine)
      ];
    }

-- The slot of a client whose process has gone without giving it back.
pub record IsKept (shm shm' : SharedMem) (i : ℕ) (sockfd other : ℤ) : Type 0 where
  pub was_free : get_elem? (identities shm.clients) i ≡ some nobody
  pub new_identities : identities shm'.clients ≡ set (identities shm.clients) i (pos i, sockfd)
  pub same_watches :
      eqb_ℤ (pos i) other ≡ false → watches_of other shm'.watches ≡ watches_of other shm.watches

-- What client_agent comes to.
abbrev pub Leaves : Threads → SharedMem → ℤ → ℤ → Ending → Type 0
Leaves threads shm sockfd other no_slot = first_slot client_free shm.clients ≡ none
Leaves threads shm sockfd other (exited i shm') =
    (threads ≢ both_start) × IsKept shm shm' i sockfd other
Leaves threads shm sockfd other (locked i shm') =
    ((c : Cancelled) × (threads ≡ no_notification_thread c)) × IsKept shm shm' i sockfd other
Leaves threads shm sockfd other (ended i shm') = (threads ≡ both_start) × IsGone shm shm' i other

-- Whether a thread could not be started.
failed : Threads → Bool
failed both_start = false
failed no_command_thread = true
failed (no_notification_thread c) = true

failed-ne : (threads : Threads) → failed threads ≡ true → threads ≢ both_start
unfolding failed
failed-ne threads e same = let f = ap failed same in cc

-- A slot that was given and not given back.
cancelled-Leaves :
    (shm before : SharedMem) (i : ℕ) (sockfd other : ℤ) (c : Cancelled) (e : Ending)
    → get_elem? (identities shm.clients) i ≡ some nobody
    → identities before.clients ≡ set (identities shm.clients) i (pos i, sockfd)
    → before.watches ≡ shm.watches
    → KeepsOthers i other before e
    → Leaves (no_notification_thread c) shm sockfd other e
unfolding failed
cancelled-Leaves shm before i sockfd other c no_slot free given ws h = absurd h
cancelled-Leaves shm before i sockfd other c (exited j shm') free given ws (e, k) = (
  failed-ne (no_notification_thread c) refl,
  rw e (record {
    was_free = free;
    new_identities = k.same_identities ∙ given;
    same_watches = λ ne. k.same_watches ne ∙ ap (watches_of other) ws;
  }),
)
cancelled-Leaves shm before i sockfd other c (locked j shm') free given ws (e, k) = (
  (c, refl),
  rw e (record {
    was_free = free;
    new_identities = k.same_identities ∙ given;
    same_watches = λ ne. k.same_watches ne ∙ ap (watches_of other) ws;
  }),
)
cancelled-Leaves shm before i sockfd other c (ended j shm') free given ws h = absurd h

pub run_threads-Leaves :
    (convert : ℤ → ℤ) (threads : Threads) (shm before : SharedMem) (i : ℕ) (sockfd : ℤ)
    (lines : List (List ℕ)) (other : ℤ)
    → live other ≡ true
    → get_elem? (identities shm.clients) i ≡ some nobody
    → identities before.clients ≡ set (identities shm.clients) i (pos i, sockfd)
    → before.watches ≡ shm.watches
    → Leaves threads shm sockfd other (run_threads convert before i lines threads)
unfolding run_threads failed
run_threads-Leaves convert both_start shm before i sockfd lines other h free given ws =
    let k = serve_lines-Keeps convert before i lines other h in
    (
      refl,
      remove-IsGone shm (serve_lines convert before i lines).shm i sockfd other h free
          (k.same_identities ∙ given) (λ ne. k.same_watches ne ∙ ap (watches_of other) ws),
    )
run_threads-Leaves convert no_command_thread shm before i sockfd lines other h free given ws = (
  failed-ne no_command_thread refl,
  record { was_free = free; new_identities = given; same_watches = λ ne. ap (watches_of other) ws },
)
run_threads-Leaves convert (no_notification_thread c) shm before i sockfd lines other h free given
      ws =
    cancelled-Leaves shm before i sockfd other c _ free given ws
      (cancel_command_thread-KeepsOthers convert before i lines c other h)
