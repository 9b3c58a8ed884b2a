-- ===== src/SupDem/Slots.antt =====
-- The slots of the shared memory of hw1/supdemserv.c: adding, removing, registering, moving.
pub mod Laws
pub mod Places
use advanced_unix_ceng.Base.{
  ℕ, zero, suc, ◌+◌, List, [], ◌∷◌, map, Option, none, some, Bool, if◌then◌else◌, get_elem?, set,
}
use advanced_unix_ceng.Base.Int.{ℤ, pos, negsuc, eqb_ℤ}
use advanced_unix_ceng.SupDem.State.{Supply, Demand, Watch, Client, SharedMem, live}

-- The index of the first free slot, where the loops of this file break.
unfoldable pub first_slot {ℓ} : {A : Type ℓ} → (A → Bool) → List A → Option ℕ
first_slot free [] = none
first_slot free (x ∷ xs) =
    let rest = first_slot free xs in
    if free x then some 0 else elim rest [ none ↦ none | some i ↦ some (suc i) ]

unfoldable pub new_demand : Client → ℤ → ℤ → ℤ → ℤ → Demand
new_demand k client_id a b c = record {
  x = k.x;
  y = k.y;
  a_amount = a;
  b_amount = b;
  c_amount = c;
  client_id = client_id;
}

abbrev pub demand_free : Demand → Bool
demand_free d = eqb_ℤ d.client_id (negsuc 0)

-- `k` is the slot of the client; with every slot taken nothing is added.
unfoldable pub add_new_demand : List Demand → Client → ℤ → ℤ → ℤ → ℤ → List Demand
add_new_demand ds k client_id a b c = elim (first_slot demand_free ds) [
  | none ↦ ds
  | some i ↦ set ds i (new_demand k client_id a b c)
]

unfoldable pub new_supply : Client → ℤ → ℤ → ℤ → ℤ → ℤ → Supply
new_supply k client_id distance a b c = record {
  x = k.x;
  y = k.y;
  a_amount = a;
  b_amount = b;
  c_amount = c;
  distance = distance;
  client_id = client_id;
}

abbrev pub supply_free : Supply → Bool
supply_free s = eqb_ℤ s.client_id (negsuc 0)

-- The index returned is that of the slot, or -1.
unfoldable pub add_new_supply : List Supply → Client → ℤ → ℤ → ℤ → ℤ → ℤ → List Supply × ℤ
add_new_supply ss k client_id distance a b c = elim (first_slot supply_free ss) [
  | none ↦ (ss, negsuc 0)
  | some i ↦ (set ss i (new_supply k client_id distance a b c), pos i)
]

abbrev pub watch_free : Watch → Bool
watch_free w = eqb_ℤ w.client_id (negsuc 0)

unfoldable pub clear_watch : ℤ → Watch → Watch
clear_watch client_id w =
    if eqb_ℤ w.client_id client_id then record w { client_id = negsuc 0; watch_id = pos 0 } else w

unfoldable pub remove_watch : List Watch → ℤ → List Watch
remove_watch ws client_id = map (clear_watch client_id) ws

unfoldable pub new_watch : Client → ℤ → ℤ → Watch
new_watch k client_id new_watch_id = record {
  x = k.x;
  y = k.y;
  client_id = client_id;
  watch_id = new_watch_id;
}

unfoldable pub add_new_watch : List Watch → Client → ℤ → ℤ → List Watch
add_new_watch ws k client_id new_watch_id =
    let cleared = remove_watch ws client_id in
    elim (first_slot watch_free cleared) [
      | none ↦ cleared
      | some i ↦ set cleared i (new_watch k client_id new_watch_id)
    ]

abbrev pub client_free : Client → Bool
client_free k = eqb_ℤ k.client_socket (negsuc 0)

-- `none` where no slot is free: the source leaves `*client_id` as it was.
unfoldable pub register_client : List Client → ℤ → List Client × Option ℕ
register_client ks client_socket = elim (first_slot client_free ks) [
  | none ↦ (ks, none)
  | some i ↦ elim (get_elem? ks i) [
    | none ↦ (ks, none)
    | some k ↦ (
      set ks i (record k {
        client_socket = client_socket;
        client_id = pos i;
        x = pos 0;
        y = pos 0;
        notif_head = 0;
        notif_tail = 0;
      }),
      some i,
    )
  ]
]

unfoldable pub clear_supply : ℤ → Supply → Supply
clear_supply client_id s =
    if eqb_ℤ s.client_id client_id
    then record {
      x = pos 0;
      y = pos 0;
      a_amount = pos 0;
      b_amount = pos 0;
      c_amount = pos 0;
      distance = pos 0;
      client_id = negsuc 0;
    }
    else s

unfoldable pub clear_demand : ℤ → Demand → Demand
clear_demand client_id d =
    if eqb_ℤ d.client_id client_id
    then record {
      x = pos 0;
      y = pos 0;
      a_amount = pos 0;
      b_amount = pos 0;
      c_amount = pos 0;
      client_id = negsuc 0;
    }
    else d

-- The change that a slot of the array of clients gets; out of range there is none.
unfoldable pub modify_client : (Client → Client) → List Client → ℕ → List Client
modify_client f [] i = []
modify_client f (k ∷ ks) zero = f k ∷ ks
modify_client f (k ∷ ks) (suc i) = k ∷ modify_client f ks i

-- For a client that is registered, so that its id is an index.
unfoldable pub remove_client_resources : SharedMem → ℕ → SharedMem
remove_client_resources shm i = record {
  supplies = map (clear_supply (pos i)) shm.supplies;
  demands = map (clear_demand (pos i)) shm.demands;
  watches = map (clear_watch (pos i)) shm.watches;
  clients =
      modify_client (λ k. record k { client_socket = negsuc 0; client_id = negsuc 0 }) shm.clients
        i;
}

unfoldable pub move_client : SharedMem → ℕ → ℤ → ℤ → SharedMem
move_client shm i x y = record shm {
  clients = modify_client (λ k. record k { x = x; y = y }) shm.clients i;
}
