-- ===== src/SupDem/Agent/Identities.antt =====
-- Which client holds which slot of hw1/supdemserv.c, under the commands of one client.
use advanced_unix_ceng.Base.{
  ℕ, zero, suc, ◌≡◌, refl, ap, ◌∙◌, List, [], ◌∷◌, map, true, false, arith, get_elem?, Bool-cases,
  Option-cases, inl, inr,
}
use advanced_unix_ceng.Base.Int.{ℤ, pos, negsuc, eqb_ℤ}
use advanced_unix_ceng.SupDem.Match.{Note}
use advanced_unix_ceng.SupDem.Queue.{enqueue_notification}
use advanced_unix_ceng.SupDem.Serve.{serve_command, serve_line, serve_lines}
use advanced_unix_ceng.SupDem.Server.{
  Command, move, watch, unwatch, deliver_one, deliver, run_match, run_supply, dispatch, run_command,
}
use advanced_unix_ceng.SupDem.Slots.{modify_client, move_client}
use advanced_unix_ceng.SupDem.Slots.Laws.{watches_of, remove_watch-counts, add_new_watch-counts}
use advanced_unix_ceng.SupDem.State.{Client, SharedMem, live}

-- The id and the socket in a slot.
abbrev pub identity : Client → ℤ × ℤ
identity k = (k.client_id, k.client_socket)

abbrev pub identities : List Client → List (ℤ × ℤ)
identities ks = map identity ks

pub identities-modify_client :
    (f : Client → Client) (ks : List Client) (i : ℕ)
    → ((k : Client) → identity (f k) ≡ identity k)
    → identities (modify_client f ks i) ≡ identities ks
unfolding modify_client
identities-modify_client f [] i keep = refl
identities-modify_client f (k ∷ ks) zero keep = ap (λ a. a ∷ identities ks) (keep k)
identities-modify_client f (k ∷ ks) (suc i) keep =
    ap (λ ids. identity k ∷ ids) (identities-modify_client f ks i keep)

identity-enqueue_notification :
    (k : Client) (msg : List ℕ) → identity (enqueue_notification k msg) ≡ identity k
unfolding enqueue_notification
identity-enqueue_notification k msg = ground arith

pub identities-deliver :
    (ks : List Client) (notes : List Note) → identities (deliver ks notes) ≡ identities ks
unfolding deliver deliver_one
identities-deliver ks [] = refl
identities-deliver ks ((pos i, msg) ∷ notes) =
    identities-deliver (modify_client (λ k. enqueue_notification k msg) ks i) notes
    ∙ identities-modify_client (λ k. enqueue_notification k msg) ks i
        (λ k. identity-enqueue_notification k msg)
identities-deliver ks ((negsuc n, msg) ∷ notes) = identities-deliver ks notes

pub identities-dispatch :
    (shm : SharedMem) (i : ℕ) (k : Client) (cmd : Command)
    → identities (dispatch shm i k cmd).0.clients ≡ identities shm.clients
unfolding dispatch run_supply run_match move_client
identities-dispatch shm i k (move x y) =
    identities-modify_client (λ c. record c { x = x; y = y }) shm.clients i (λ c. refl)
identities-dispatch shm i k cmd = refl

watches_of-dispatch :
    (shm : SharedMem) (i : ℕ) (k : Client) (cmd : Command) (other : ℤ)
    → live other ≡ true
    → eqb_ℤ (pos i) other ≡ false
    → watches_of other (dispatch shm i k cmd).0.watches ≡ watches_of other shm.watches
unfolding dispatch run_supply run_match move_client
watches_of-dispatch shm i k (watch id) other h ne =
    add_new_watch-counts k (pos i) id other shm.watches (ground arith) h ∙ rw ne refl
watches_of-dispatch shm i k unwatch other h ne =
    remove_watch-counts (pos i) other shm.watches (ground arith) h ∙ rw ne refl
watches_of-dispatch shm i k cmd other h ne = refl

-- What a client's commands keep: who is registered, and the watches of the others.
pub record Keeps (i : ℕ) (other : ℤ) (shm shm' : SharedMem) : Type 0 where
  pub same_identities : identities shm'.clients ≡ identities shm.clients
  pub same_watches :
      eqb_ℤ (pos i) other ≡ false → watches_of other shm'.watches ≡ watches_of other shm.watches

pub Keeps-trans :
    (i : ℕ) (other : ℤ) (a b c : SharedMem)
    → Keeps i other a b
    → Keeps i other b c
    → Keeps i other a c
Keeps-trans i other a b c h k = record {
  same_identities = k.same_identities ∙ h.same_identities;
  same_watches = λ ne. k.same_watches ne ∙ h.same_watches ne;
}

pub serve_command-Keeps :
    (shm : SharedMem) (i : ℕ) (cmd : Command) (other : ℤ)
    → live other ≡ true
    → Keeps i other shm (serve_command shm i cmd).shm
unfolding serve_command run_command
serve_command-Keeps shm i cmd other h = elim (Option-cases (get_elem? shm.clients i)) [
  | inl nobody ↦
      rw (nobody, serve_command) (record { same_identities = refl; same_watches = λ ne. refl })
  | inr (k, here) ↦
      rw (here, serve_command)
        (record {
          same_identities =
              identities-deliver (dispatch shm i k cmd).0.clients (dispatch shm i k cmd).1
              ∙ identities-dispatch shm i k cmd;
          same_watches = λ ne. watches_of-dispatch shm i k cmd other h ne;
        })
]

pub serve_lines-Keeps :
    (convert : ℤ → ℤ) (shm : SharedMem) (i : ℕ) (lines : List (List ℕ)) (other : ℤ)
    → live other ≡ true
    → Keeps i other shm (serve_lines convert shm i lines).shm
unfolding serve_lines serve_line
serve_lines-Keeps convert shm i [] other h = record {
  same_identities = refl;
  same_watches = λ ne. refl;
}
serve_lines-Keeps convert shm i (line ∷ lines) other h =
    let first = serve_line convert shm i line in
    let one : Keeps i other shm first.shm = serve_command-Keeps shm i _ other h in
    elim (Bool-cases first.running) [
      | inl on ↦ rw on (
          Keeps-trans i other shm first.shm _ one
            (serve_lines-Keeps convert first.shm i lines other h))
      | inr off ↦ rw off one
    ]
