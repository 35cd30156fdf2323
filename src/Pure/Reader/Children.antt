-- ===== src/Pure/Reader/Children.antt =====
-- The iteration of maxminddb/reader.py: `__iter__` and `_generate_children`, lines 166-192.
pub mod Collect
pub mod Networks
use max_mind_db_reader_pytho.Base.{
  ℕ, zero, suc, ◌+◌, ◌-◌, ◌*◌, ◌^◌, ℤ, pos, sub_ℕ, Bool, true, false, not, ◌&&◌, Option, List, [],
  ◌∷◌, ◌++◌, ◌==◌, ltb, leb, if◌then◌else◌,
}
use max_mind_db_reader_pytho.Pure.{Result, Exn, ok, raises, ◌>>=◌, value_error, recursion_error}
use max_mind_db_reader_pytho.Pure.Decoder.{Record}
use max_mind_db_reader_pytho.Pure.Reader.{Reader, read_node, resolve_data_pointer}

-- What a generator gives to a loop that takes all of it: its items, and an exception at the end if
-- there is one.
pub data Generated {ℓ} (A : Type ℓ) : Type ℓ where
  stop : Generated A
  fails : Exn → Generated A
  yields : A → Generated A → Generated A

module _ {ℓ} {A : Type ℓ} where
  -- A generator, and after it what `rest` gives.
  infixr 5 ◌then_from◌
  abbrev pub ◌then_from◌ : Generated A → Generated A → Generated A
  stop then_from rest = rest
  (fails e) then_from rest = fails e
  (yields a g) then_from rest = yields a (g then_from rest)

  abbrev pub yield_result : Result A → Generated A
  yield_result (ok a) = yields a stop
  yield_result (raises e) = fails e

abbrev pub from_result {ℓ κ} :
    {A : Type ℓ} {B : Type κ} → Result A → (A → Generated B) → Generated B
from_result (ok a) k = k a
from_result (raises e) k = fails e

module _ {ℓ} {Network : Type ℓ}
    -- `ipaddress.ip_network` of a number and a prefix length
    (ip_network : ℕ → ℤ → Result Network) (self : Reader) (decode_utf8 : List ℕ → Option (List ℕ))
    (limit : ℕ) where
  -- A network and its data, or what their computation raises.
  abbrev pub item : (address : ℕ) → (prefix : ℤ) → (pointer : ℕ) → Result (Network × Record)
  item address prefix pointer = do
    network ← ip_network address prefix
    data' ← resolve_data_pointer self decode_utf8 limit pointer
    ok (network, data')

  -- The item of a data record.
  unfoldable pub data_item : (node depth ip_acc : ℕ) → Generated (Network × Record)
  unfolding resolve_data_pointer
  data_item node depth ip_acc =
      let bits = if self.metadata.ip_version == 6 then 128 else 32 in
      if ltb bits depth
      then fails (value_error "negative shift count")
      else (let address = ip_acc * 2 ^ (bits - depth) in
          yield_result (
            item address
              (if leb address (2 ^ 32) && (bits == 128) then sub_ℕ depth 96 else pos depth) node))

  -- `_generate_children`, where Python's stack takes `rounds` more generators: shifted to the left by
  -- one, the address has a free last bit.
  unfoldable pub generate_children : (rounds node depth ip_acc : ℕ) → Generated (Network × Record)
  unfolding read_node data_item
  generate_children zero node depth ip_acc = fails recursion_error
  generate_children (suc rounds) node depth ip_acc =
      if not (ip_acc == 0) && (node == self.ipv4_start)
      then stop
      else if ltb self.metadata.node_count node
      then data_item node depth ip_acc
      else if ltb node self.metadata.node_count
      then from_result (read_node self.buffer self.metadata node 0) (λ left.
        generate_children rounds left (depth + 1) (ip_acc * 2)
        then_from from_result (read_node self.buffer self.metadata node 1)
            (λ right. generate_children rounds right (depth + 1) (ip_acc * 2 + 1)))
      else stop

  -- `__iter__`
  unfoldable pub iter : (rounds : ℕ) → Generated (Network × Record)
  unfolding generate_children
  iter rounds = generate_children rounds 0 0 0
