-- ===== src/External.antt =====
-- What the program takes from other crates: the `tokio::sync::watch` channel, the bytes of `prost`,
-- and what the client's end of a `tonic` stream may yield.
use xds_control_plane_the_ha.Prelude.{
  ℕ, ◌+◌, ◌≤◌, ◌≡◌, refl, ◌≢◌, List, String, arith, ltb, if◌then◌else◌,
}

-- The bytes of an encoded message.
abbrev pub Bytes : Type 0
Bytes = List ℕ

-- `google.protobuf.Any`.
pub record Any : Type 0 where
  pub type_url : String
  pub value : Bytes

-- What `inbound.next().await` yields: `None`, `Some(Err(_))` or `Some(Ok(_))`.
pub data Inbound (A : Type 0) : Type 0 where
  end_of_stream : Inbound A
  recv_error : Inbound A
  message : A → Inbound A

-- What awaiting `changed()` on a watch receiver does: it waits, it returns `Ok`, or it returns `Err`.
pub data Poll : Type 0 where
  pending moved closed : Poll

-- A watch channel with a living sender and a living receiver, as `tokio` documents it. `Cell` is
-- the shared state behind the sender, `Rx` what a receiver has seen, and `Tracks` says that a
-- receiver belongs to the channel.
pub record Watch (V : Type 0) : Type 1 where
  pub Cell : Type 0
  pub Rx : Type 0
  pub Tracks : Rx → Cell → Type 0
  pub channel : V → Cell
  pub borrow : Cell → V
  pub send : V → Cell → Cell
  pub subscribe : Cell → Rx
  pub borrow_and_update : Rx → Cell → V × Rx
  pub poll : Rx → Cell → Poll
  pub borrow-channel : (v : V) → borrow (channel v) ≡ v
  pub borrow-send : (v : V) (c : Cell) → borrow (send v c) ≡ v
  pub update_value : (r : Rx) (c : Cell) → (borrow_and_update r c).0 ≡ borrow c
  pub subscribe-Tracks : (c : Cell) → Tracks (subscribe c) c
  pub send-Tracks : (r : Rx) (v : V) (c : Cell) → Tracks r c → Tracks r (send v c)
  pub update-Tracks : (r : Rx) (c : Cell) → Tracks r c → Tracks (borrow_and_update r c).1 c
  pub poll-subscribe : (c : Cell) → poll (subscribe c) c ≡ pending
  pub poll-update : (r : Rx) (c : Cell) → Tracks r c → poll (borrow_and_update r c).1 c ≡ pending
  pub poll-send : (r : Rx) (v : V) (c : Cell) → Tracks r c → poll r (send v c) ≡ moved
  pub poll_open : (r : Rx) (c : Cell) → Tracks r c → poll r c ≢ closed

-- A channel that meets the laws: the value with the number of sends, and the number last seen.
abbrev pub counted_poll : ℕ → ℕ → Poll
counted_poll m n = if ltb m n then moved else pending

pub counted_pending : (n : ℕ) → counted_poll n n ≡ pending
counted_pending n = ground arith

pub counted_moved : (m n : ℕ) → m ≤ n → counted_poll m (n + 1) ≡ moved
counted_moved m n h = ground arith

pub counted_open : (m n : ℕ) → counted_poll m n ≢ closed
counted_open m n e = ground arith

abbrev pub counted : {V : Type 0} → Watch V
counted {V} = record {
  Cell = V × ℕ;
  Rx = ℕ;
  Tracks = λ r c. r ≤ c.1;
  channel = λ v. (v, 0);
  borrow = λ c. c.0;
  send = λ v c. (v, c.1 + 1);
  subscribe = λ c. c.1;
  borrow_and_update = λ r c. (c.0, c.1);
  poll = λ r c. counted_poll r c.1;
  borrow-channel = λ v. refl;
  borrow-send = λ v c. refl;
  update_value = λ r c. refl;
  subscribe-Tracks = λ c. omega arith;
  send-Tracks = λ r v c h. omega arith;
  update-Tracks = λ r c h. omega arith;
  poll-subscribe = λ c. counted_pending c.1;
  poll-update = λ r c h. counted_pending c.1;
  poll-send = λ r v c h. counted_moved r c.1 h;
  poll_open = λ r c h. counted_open r c.1;
}
