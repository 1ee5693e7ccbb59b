-- ===== src/Traversal/Channels.antt =====
-- Bound channels of the relay (crates/traversal/src/turn.rs).
use udpix.Base.{
  ℕ, ◌/◌, ◌%◌, ◌≤◌, ◌<◌, ◌≡◌, refl, sym, ap, ◌∙◌, true, ◌||◌, List, [], ◌∷◌, ◌++◌, Option, none,
  some, ◌==◌, length, get_or, arith, inl, inr, Bool-cases, ==→eq,
}
use mathlib.Core.Option.{some-injective, none-ne-some}
use udpix.Base.Bytes.{u16, to_be_bytes}
use udpix.Traversal.Address.{SocketAddr}
use udpix.Traversal.Turn.{Hashes, turn_channel_bind_ok}
use udpix.Traversal.TurnClient.{
  TurnClient, contains_channel, set_channel, sign, bind_msg, in_range, on_bound, bind_channel,
  send_channel_data, new_client, type_in_buffer,
}

-- A call of `bind_channel`: its identifier, channel and peer.
pub record Binding : Type 0 where
  pub tid : List ℕ
  pub channel : ℕ
  pub peer_addr : SocketAddr

abbrev pub InRange : List (ℕ × SocketAddr) → Type 0
InRange m =
    (channel : ℕ) → contains_channel channel m ≡ true → (0x4000 ≤ channel) × (channel ≤ 0x7FFF)

contains_channel-set_channel :
    (channel other : ℕ) (addr : SocketAddr) (m : List (ℕ × SocketAddr))
    → contains_channel other (set_channel channel addr m)
      ≡ ((channel == other) || contains_channel other m)
unfolding contains_channel set_channel
contains_channel-set_channel channel other addr [] = refl
contains_channel-set_channel channel other addr ((c, a) ∷ m) =
    ground (arith, contains_channel-set_channel channel other addr m)

module _ (h : Hashes) (exchange : SocketAddr → List ℕ → Option (List ℕ)) where
  abbrev pub bind_all : List Binding → TurnClient → TurnClient
  bind_all [] c = c
  bind_all (b ∷ bs) c = bind_all bs (bind_channel h exchange c b.tid b.channel b.peer_addr).0

  bind_channel-InRange :
      (c : TurnClient) (tid : List ℕ) (channel : ℕ) (peer_addr : SocketAddr)
      → InRange c.channels
      → InRange (bind_channel h exchange c tid channel peer_addr).0.channels
  unfolding bind_channel on_bound
  bind_channel-InRange c tid channel peer_addr v = elim (Bool-cases (in_range channel)) [
    | inr e ↦ rw e v
    | inl e ↦ rw e (
        bound (ground arith) (ground arith)
          (exchange c.server_addr (sign h c (bind_msg tid channel peer_addr))))
  ]
    where
      bound :
          0x4000 ≤ channel
          → channel ≤ 0x7FFF
          → (r : Option (List ℕ)) → InRange (on_bound c channel peer_addr r).0.channels
      bound lo hi none other found = v other found
      bound lo hi (some r) other found =
          elim (Bool-cases (type_in_buffer r == turn_channel_bind_ok)) [
            | inr e ↦ v other (rw e at found)
            | inl e ↦
                let now : contains_channel other (set_channel channel peer_addr c.channels) ≡ true =
                  rw e at found in
                let either : (channel == other) || contains_channel other c.channels ≡ true =
                  sym (contains_channel-set_channel channel other peer_addr c.channels) ∙ now in
                elim (Bool-cases (channel == other)) [
                  | inl same ↦ (omega (arith, ==→eq _ _ same), omega (arith, ==→eq _ _ same))
                  | inr new ↦ v other (rw new at either)
                ]
          ]

  bind_all-InRange :
      (bs : List Binding) (c : TurnClient) → InRange c.channels → InRange (bind_all bs c).channels
  bind_all-InRange [] c v = v
  bind_all-InRange (b ∷ bs) c v =
      bind_all-InRange bs _ (bind_channel-InRange c b.tid b.channel b.peer_addr v)

  -- Whatever channels are bound in whatever order, and whatever the server answers: data is sent
  -- only on a channel from 0x4000 to 0x7FFF, behind its number and its length, so that the first
  -- byte of the datagram lies from 64 to 127 and no STUN message begins with it.
  pub send_channel_data_lem :
      (server : SocketAddr) (username password : List ℕ) (bs : List Binding) (channel : ℕ)
      (bytes wire : List ℕ)
      → send_channel_data (bind_all bs (new_client server username password)) channel bytes
        ≡ some wire
      → (wire ≡ to_be_bytes 2 channel ++ (to_be_bytes 2 (u16 (length bytes)) ++ bytes))
        × (0x4000 ≤ channel)
        × (channel ≤ 0x7FFF)
        × (64 ≤ get_or wire 0 0)
        × (get_or wire 0 0 < 128)
  unfolding send_channel_data new_client contains_channel
  send_channel_data_lem server username password bs channel bytes wire sent =
      let c = bind_all bs (new_client server username password) in
      let frame = to_be_bytes 2 channel ++ (to_be_bytes 2 (u16 (length bytes)) ++ bytes) in
      elim (Bool-cases (contains_channel channel c.channels)) [
        | inr e ↦ absurd (none-ne-some wire (rw e at sent))
        | inl e ↦
            let (lo, hi) = bind_all-InRange bs _ (λ other found. ground arith) channel e in
            let same : frame ≡ wire = some-injective frame wire (rw e at sent) in
            let first : get_or wire 0 0 ≡ channel / 256 % 256 =
              ap (λ (t : List ℕ). get_or t 0 0) (sym same) in
            (sym same, lo, hi, omega arith, omega arith)
      ]
