-- ===== src/Channels/Model.antt =====
-- A concrete channel table that meets the documented behaviour: senders are numbers, and the state
-- gives each channel its frames, whether its receiver lives, and how many senders it has.
use overacp.Channels.{Mpsc}
use overacp.Prelude.{
  Bool, List, Option, String, [], ap, arith, false, if◌then◌else◌, nat_beq, none, not, some, suc,
  true, ℕ, ◌++◌, ◌-◌, ◌∷◌, ◌≡◌, ◌≢◌,
}

pub record Channel : Type 0 where
  pub frames : List String
  pub receiver : Bool
  pub count : ℕ

abbrev pub Table : Type 0
Table = ℕ → Channel

abbrev pub update : Table → ℕ → Channel → Table
update t tx c other = if nat_beq tx other then c else t other

abbrev pub send_in : ℕ → String → Table → Option Table
send_in tx frame t =
    if (t tx).receiver
    then some (update t tx (record (t tx) { frames = (t tx).frames ++ frame ∷ [] }))
    else none

abbrev pub with_frame : Table → ℕ → String → Table
with_frame t tx frame = update t tx (record (t tx) { frames = (t tx).frames ++ frame ∷ [] })

if_eq_some {ℓ} : {A : Type ℓ} (b : Bool) (x y : A) → (if b then some x else none) ≡ some y → x ≡ y
if_eq_some true x y h = cc
if_eq_some false x y h = cc

send_in-eq_some :
    (tx : ℕ) (frame : String) (t t' : Table)
    → send_in tx frame t ≡ some t'
    → with_frame t tx frame ≡ t'
send_in-eq_some tx frame t t' h = if_eq_some (t tx).receiver (with_frame t tx frame) t' h

update_self : (t : Table) (tx : ℕ) (c : Channel) → update t tx c tx ≡ c
update_self t tx c = ground arith

update_other : (t : Table) (tx other : ℕ) (c : Channel) → other ≢ tx → update t tx c other ≡ t other
update_other t tx other c apart = ground arith

pub queued-send_in :
    (tx : ℕ) (frame : String) (t t' : Table)
    → send_in tx frame t ≡ some t'
    → (t' tx).frames ≡ (t tx).frames ++ frame ∷ []
queued-send_in tx frame t t' h =
    rw (← send_in-eq_some tx frame t t' h) (ap (λ (c : Channel). c.frames) (update_self t tx _))

pub queued-send_in_other :
    (tx other : ℕ) (frame : String) (t t' : Table)
    → send_in tx frame t ≡ some t'
    → other ≢ tx
    → (t' other).frames ≡ (t other).frames
queued-send_in_other tx other frame t t' h apart =
    rw (← send_in-eq_some tx frame t t' h)
      (ap (λ (c : Channel). c.frames) (update_other t tx other _ apart))

pub count-send_in :
    (tx other : ℕ) (frame : String) (t t' : Table)
    → send_in tx frame t ≡ some t'
    → (t' other).count ≡ (t other).count
count-send_in tx other frame t t' h = rw (← send_in-eq_some tx frame t t' h) (ground arith)

abbrev recount : (ℕ → ℕ) → ℕ → Table → Table
recount f tx t = update t tx (record (t tx) { count = f (t tx).count })

pub count-drop : (tx : ℕ) (t : Table) → (recount (λ n. n - 1) tx t tx).count ≡ (t tx).count - 1
count-drop tx t = ap (λ (c : Channel). c.count) (update_self t tx _)

pub count-clone : (tx : ℕ) (t : Table) → (recount suc tx t tx).count ≡ suc (t tx).count
count-clone tx t = ap (λ (c : Channel). c.count) (update_self t tx _)

pub frames-recount :
    (f : ℕ → ℕ) (tx other : ℕ) (t : Table) → (recount f tx t other).frames ≡ (t other).frames
frames-recount f tx other t = ground arith

pub count-recount_other :
    (f : ℕ → ℕ) (tx other : ℕ) (t : Table)
    → other ≢ tx
    → (recount f tx t other).count ≡ (t other).count
count-recount_other f tx other t apart = ground arith

abbrev pub closed_in : ℕ → Table → Bool
closed_in tx t = not (t tx).receiver

pub send_in-eq_none :
    (tx : ℕ) (frame : String) (t : Table) → closed_in tx t ≡ true → send_in tx frame t ≡ none
send_in-eq_none tx frame t h = ground arith

pub send_in-ne_none :
    (tx : ℕ) (frame : String) (t : Table) → closed_in tx t ≡ false → send_in tx frame t ≢ none
send_in-ne_none tx frame t h = ground arith

pub closed_in-send_in :
    (tx other : ℕ) (frame : String) (t t' : Table)
    → send_in tx frame t ≡ some t'
    → closed_in other t' ≡ closed_in other t
closed_in-send_in tx other frame t t' h = rw (← send_in-eq_some tx frame t t' h) (ground arith)

pub closed_in-recount :
    (f : ℕ → ℕ) (tx other : ℕ) (t : Table) → closed_in other (recount f tx t) ≡ closed_in other t
closed_in-recount f tx other t = ground arith

abbrev pub close : ℕ → Table → Table
close tx t = update t tx (record (t tx) { frames = []; receiver = false })

pub closed_in-close : (tx : ℕ) (t : Table) → closed_in tx (close tx t) ≡ true
closed_in-close tx t = ap (λ (c : Channel). not c.receiver) (update_self t tx _)

pub closed_in-close_other :
    (tx other : ℕ) (t : Table) → other ≢ tx → closed_in other (close tx t) ≡ closed_in other t
closed_in-close_other tx other t apart =
    ap (λ (c : Channel). not c.receiver) (update_other t tx other _ apart)

pub count-close : (tx other : ℕ) (t : Table) → (close tx t other).count ≡ (t other).count
count-close tx other t = ground arith

pub frames-close_other :
    (tx other : ℕ) (t : Table) → other ≢ tx → (close tx t other).frames ≡ (t other).frames
frames-close_other tx other t apart =
    ap (λ (c : Channel). c.frames) (update_other t tx other _ apart)

abbrev pub table_mpsc : Mpsc
table_mpsc = record {
  Chans = Table;
  Tx = ℕ;
  send = send_in;
  queued = λ tx t. (t tx).frames;
  senders = λ tx t. (t tx).count;
  clone_tx = recount suc;
  drop_tx = recount (λ n. n - 1);
  queued-send = queued-send_in;
  queued-send_other = queued-send_in_other;
  is_closed = closed_in;
  close_rx = close;
  is_closed-close_rx = closed_in-close;
  is_closed-close_rx_other = closed_in-close_other;
  senders-close_rx = count-close;
  queued-close_rx_other = frames-close_other;
  send-eq_none = send_in-eq_none;
  send-ne_none = send_in-ne_none;
  is_closed-send = closed_in-send_in;
  is_closed-clone_tx = closed_in-recount suc;
  is_closed-drop_tx = closed_in-recount (λ n. n - 1);
  senders-send = count-send_in;
  senders-clone_tx = count-clone;
  senders-drop_tx = count-drop;
  senders-drop_tx_other = count-recount_other (λ n. n - 1);
  queued-clone_tx = frames-recount suc;
  queued-drop_tx = frames-recount (λ n. n - 1);
}

-- Every channel is open, with one sender and no frame.
abbrev pub fresh_table : Table
fresh_table tx = record { frames = []; receiver = true; count = 1 }
