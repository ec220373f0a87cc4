-- ===== src/SocketsOps/Address.antt =====
-- The text of an address, as InetAddress.cc gives it.
use simplev.Prelude.{
  ℕ, ◌-◌, ◌*◌, ◌^◌, ◌≡◌, ◌≤◌, ◌<◌, refl, ap, ◌∙◌, true, List, [], ◌∷◌, ◌++◌, length, arith,
  length-append, Option, some, ok, ensure-true, assertion, ltb, take_all,
}
use simplev.LogStream.Printf.{decimal_text, decimal_text_lem}
use simplev.SocketsOps.{
  SockAddr, dotted, to_bytes, inet_ntop, to_ip_port, address_text, network_to_host16,
  host_to_network16, from_host_port, any_address, set_addr, zeroed, swap,
}
use simplev.SocketsOps.Swap.{swap-swap, AllBytes, to_bytes-AllBytes, length-to_bytes}

-- A byte has at most three digits.
length-dotted : (bs : List ℕ) → AllBytes bs → length (dotted bs) ≤ 4 * length bs - 1
length-dotted [] p = omega arith
length-dotted (b ∷ []) p = omega (arith, (decimal_text_lem b 2).1 (omega (arith, p.0)))
length-dotted (b ∷ c ∷ bs) p =
    let three = (decimal_text_lem b 2).1 (omega (arith, p.0)) in
    let size = length-append (decimal_text b) (b'.' ∷ dotted (c ∷ bs)) in
    omega (arith, three, size, length-dotted (c ∷ bs) p.1)

length-inet_ntop : (s : ℕ) → length (inet_ntop s) ≤ 15
unfolding inet_ntop
length-inet_ntop s =
    omega (arith, length-dotted (to_bytes 4 s) (to_bytes-AllBytes 4 s), length-to_bytes 4 s)

port_digits : (port : ℕ) → port < 2 ^ 16 → length (decimal_text port) ≤ 5
port_digits port h = (decimal_text_lem port 4).1 (omega (arith, h))

-- The text of any address and port is whole: the four bytes with dots, and the port behind a colon. It
-- has at most 21 characters, so that the buffer of 32 is never too short.
pub address_text_lem :
    (addr : SockAddr)
    → addr.sin_port < 2 ^ 16
    → let text = inet_ntop addr.s_addr ++ b':' ∷ decimal_text (network_to_host16 addr.sin_port) in
      (address_text addr ≡ ok text) × (length text ≤ 21)
unfolding to_ip_port
address_text_lem addr h =
    let ip = length-inet_ntop addr.s_addr in
    let port =
      port_digits (network_to_host16 addr.sin_port)
        (swap-swap 2 addr.sin_port (omega (arith, h))).1 in
    let room : ltb (length (inet_ntop addr.s_addr)) 32 ≡ true = ground (arith, ip) in
    (
      ensure-true room assertion _
          ∙ ap (λ t. ok (inet_ntop addr.s_addr ++ t))
              (take_all (32 - length (inet_ntop addr.s_addr) - 1)
                (b':' ∷ decimal_text (network_to_host16 addr.sin_port)) (omega (arith, ip, port))),
      omega (
        arith,
        ip,
        port,
        length-append (inet_ntop addr.s_addr)
            (b':' ∷ decimal_text (network_to_host16 addr.sin_port)),
      ),
    )

-- A port that was turned for the network is printed as it was.
printed :
    (s_addr port : ℕ)
    → port < 2 ^ 16
    → address_text (record { sin_port = host_to_network16 port; s_addr = s_addr })
      ≡ ok (inet_ntop s_addr ++ b':' ∷ decimal_text port)
printed s_addr port h =
    let (back, small) = swap-swap 2 port (omega (arith, h)) in
    (address_text_lem (record { sin_port = host_to_network16 port; s_addr = s_addr })
      (omega (arith, small))).0
    ∙ ap (λ p. ok (inet_ntop s_addr ++ b':' ∷ decimal_text p)) back

zero_swapped : swap 4 0 ≡ 0
unfolding swap
zero_swapped = refl

-- An InetAddress that is made of the text of an address and a port gives them back, where `inet_pton`
-- reads the text that `inet_ntop` writes; one that is made of a port alone gives 0.0.0.0.
pub from_host_port-address_text :
    (inet_pton : List ℕ → Option ℕ) (s_addr port : ℕ)
    → inet_pton (inet_ntop s_addr) ≡ some s_addr
    → port < 2 ^ 16
    → (address_text (from_host_port inet_pton (inet_ntop s_addr) port)
        ≡ ok (inet_ntop s_addr ++ b':' ∷ decimal_text port))
      × (address_text (any_address port) ≡ ok (inet_ntop 0 ++ b':' ∷ decimal_text port))
unfolding from_host_port any_address
from_host_port-address_text inet_pton s_addr port reads h = (
  ap (λ o. address_text (set_addr o (record zeroed { sin_port = host_to_network16 port }))) reads
      ∙ printed s_addr port h,
  ap (λ s. address_text (record { sin_port = host_to_network16 port; s_addr = s })) zero_swapped
      ∙ printed 0 port h,
)
