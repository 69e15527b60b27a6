-- ===== src/Samples.antt =====
-- A small world for the tests: three endpoints with keys of 32 equal bytes, and custom addresses
-- that are pairs. It shows that the laws of `Iroh` can be met.
pub mod Channels
pub mod Nodes
use iroh_webrtc_messenger.Common.{
  ℕ, ◌≡◌, refl, Option, none, some, Bytes, Bytes-discrete, ℕ_discrete, length, replicate, ite,
  arith,
}
use iroh_webrtc_messenger.Iroh.{Iroh}

pub data Peer : Type 0 where
  alice bob carol : Peer

unfoldable pub Peer-discrete : Discrete Peer
Peer-discrete = hlevel

abbrev pub key_of : Peer → Bytes
key_of alice = replicate 32 1
key_of bob = replicate 32 2
key_of carol = replicate 32 3

abbrev pub peer_of : Bytes → Option Peer
peer_of bytes = ite (Bytes-discrete bytes (key_of alice)) (some alice) (
    ite (Bytes-discrete bytes (key_of bob)) (some bob)
      (ite (Bytes-discrete bytes (key_of carol)) (some carol) none))

pub length-key_of : (p : Peer) → length (key_of p) ≡ 32
length-key_of alice = refl
length-key_of bob = refl
length-key_of carol = refl

pub peer_of-key_of : (p : Peer) → peer_of (key_of p) ≡ some p
unfolding Bytes-discrete ℕ_discrete
peer_of-key_of alice = refl
peer_of-key_of bob = refl
peer_of-key_of carol = refl

pub key_of-peer_of : (bytes : Bytes) (p : Peer) → peer_of bytes ≡ some p → key_of p ≡ bytes
key_of-peer_of bytes alice h = ground arith
key_of-peer_of bytes bob h = ground arith
key_of-peer_of bytes carol h = ground arith

abbrev pub sample_iroh : Iroh
sample_iroh = record {
  EndpointId = Peer;
  EndpointId-discrete = Peer-discrete;
  as_bytes = key_of;
  from_bytes = peer_of;
  length-as_bytes = length-key_of;
  from_bytes-as_bytes = peer_of-key_of;
  as_bytes-from_bytes = key_of-peer_of;
  CustomAddr = ℕ × Bytes;
  from_parts = λ id bytes. (id, bytes);
  addr_id = λ a. a.0;
  addr_data = λ a. a.1;
  addr_id-from_parts = λ id bytes. refl;
  addr_data-from_parts = λ id bytes. refl;
  from_parts-eta = λ a. refl;
}
