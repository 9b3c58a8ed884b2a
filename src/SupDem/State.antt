-- ===== src/SupDem/State.antt =====
-- The shared memory of hw1/supdemserv.c. A slot is free when its client_id is -1.
use advanced_unix_ceng.Base.{ℕ, List, Bool, not}
use advanced_unix_ceng.Base.Int.{ℤ, negsuc, eqb_ℤ}

abbrev pub max_clients : ℕ
max_clients = 1000

abbrev pub max_supply : ℕ
max_supply = 10000

abbrev pub max_demand : ℕ
max_demand = 10000

abbrev pub max_watch : ℕ
max_watch = 1000

abbrev pub max_notifications : ℕ
max_notifications = 1000

pub record Supply : Type 0 where
  pub x : ℤ
  pub y : ℤ
  pub a_amount : ℤ
  pub b_amount : ℤ
  pub c_amount : ℤ
  pub distance : ℤ
  pub client_id : ℤ

pub record Demand : Type 0 where
  pub x : ℤ
  pub y : ℤ
  pub a_amount : ℤ
  pub b_amount : ℤ
  pub c_amount : ℤ
  pub client_id : ℤ

pub record Watch : Type 0 where
  pub x : ℤ
  pub y : ℤ
  pub client_id : ℤ
  pub watch_id : ℤ

-- The mutex and the condition variable of a client are left out; `notifications` holds the
-- messages as C strings.
pub record Client : Type 0 where
  pub client_id : ℤ
  pub x : ℤ
  pub y : ℤ
  pub client_socket : ℤ
  pub notifications : List (List ℕ)
  pub notif_head : ℕ
  pub notif_tail : ℕ

pub record SharedMem : Type 0 where
  pub supplies : List Supply
  pub demands : List Demand
  pub watches : List Watch
  pub clients : List Client

-- `id != -1`
abbrev pub live : ℤ → Bool
live id = not (eqb_ℤ id (negsuc 0))
