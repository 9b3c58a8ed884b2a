-- ===== src/SupDem/Watch.antt =====
-- check_for_watch_events_on_new_supply of hw1/supdemserv.c. The notifications are the calls of
-- enqueue_notification, in their order.
use advanced_unix_ceng.Base.{List, [], ◌∷◌, Bool, not, ◌&&◌, if◌then◌else◌}
use advanced_unix_ceng.Base.Int.{pos, ltb_ℤ}
use advanced_unix_ceng.SupDem.Match.{Note}
use advanced_unix_ceng.SupDem.State.{Supply, Watch, live}
use advanced_unix_ceng.SupDem.Text.{watch_message}
use advanced_unix_ceng.SupDem.Word.{manhattan_distance}

-- Whether a watch is in use and the supply within its distance.
unfoldable pub sees : Supply → Watch → Bool
sees s w =
    live w.client_id
    && (ltb_ℤ (pos 0) w.watch_id && not (ltb_ℤ w.watch_id (manhattan_distance w.x w.y s.x s.y)))

unfoldable pub notify_watches : Supply → List Watch → List Note
notify_watches s [] = []
notify_watches s (w ∷ ws) =
    let rest = notify_watches s ws in
    if sees s w then (w.client_id, watch_message s) ∷ rest else rest

-- `s` is the slot of the new supply.
unfoldable pub check_for_watch_events_on_new_supply : Supply → List Watch → List Note
check_for_watch_events_on_new_supply s ws = if live s.client_id then notify_watches s ws else []
