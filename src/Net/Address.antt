-- ===== src/Net/Address.antt =====
-- Socket::parse_address of src/net/socket.cpp. What getaddrinfo and inet_ntop answer is a parameter:
-- nothing where the name cannot be resolved, or an entry for each address, which is `none` where it
-- is no IPv4 address or has no text.
use rtmp_abr_transcoder.Base.{
  ℕ, suc, ◌+◌, ◌-◌, ◌%◌, ◌^◌, ◌≡◌, refl, List, [], ◌∷◌, ◌++◌, Option, none, some, Result, ok, err,
  ◌==◌, if◌then◌else◌, length, take, drop, take-append, drop-append_add, ==_self,
}
use rtmp_abr_transcoder.Base.Texts.{IsWithout, ==_flip}
use rtmp_abr_transcoder.Base.Numbers.{
  ℤ, pos, negsuc, stoi, value, IsInt, stoi_digits, IsDigits-IsWithout,
}
use rtmp_abr_transcoder.Net.Socket.{SocketError, invalid_port, unresolved, no_address}

-- s.rfind(b).
unfoldable pub rfind : ℕ → List ℕ → Option ℕ
rfind b [] = none
rfind b (c ∷ s) = elim (rfind b s) [
  | some i ↦ some (suc i)
  | none ↦ if c == b then some 0 else none
]

-- The cast of an int to a uint16_t.
unfoldable pub to_port : ℤ → ℕ
to_port (pos n) = n % 2 ^ 16
to_port (negsuc n) = 2 ^ 16 - 1 - n % 2 ^ 16

-- The loop over the entries: the text of the first address, or no text.
unfoldable pub first_address : List (Option (List ℕ)) → List ℕ
first_address [] = []
first_address (none ∷ entries) = first_address entries
first_address (some text ∷ entries) = text

unfoldable pub with_port : ℕ → Option (List (Option (List ℕ))) → Result SocketError (List ℕ × ℕ)
with_port port none = err unresolved
with_port port (some entries) =
    let ip_addr = first_address entries in
    if length ip_addr == 0 then err no_address else ok (ip_addr, port)

module _ (resolve : List ℕ → Option (List (Option (List ℕ)))) where
  -- The port that stands behind the host.
  unfoldable pub resolve_at : List ℕ → Option ℤ → Result SocketError (List ℕ × ℕ)
  resolve_at hostname none = err invalid_port
  resolve_at hostname (some n) = with_port (to_port n) (resolve hostname)

  unfoldable pub parse_address : List ℕ → Result SocketError (List ℕ × ℕ)
  parse_address addr_port = elim (rfind 58 addr_port) [
    | none ↦ with_port 1935 (resolve addr_port)
    | some colon_pos ↦ resolve_at (take colon_pos addr_port) (stoi (drop (colon_pos + 1) addr_port))
  ]

rfind-none : (b : ℕ) (s : List ℕ) → IsWithout b s → rfind b s ≡ none
unfolding rfind
rfind-none b [] w = refl
rfind-none b (c ∷ s) (other, w) = rw (rfind-none b s w, ==_flip c b other) refl

pub rfind-append :
    (b : ℕ) (front back : List ℕ)
    → IsWithout b back
    → rfind b (front ++ (b ∷ back)) ≡ some (length front)
unfolding rfind
rfind-append b [] back w = rw (rfind-none b back w, ==_self b) refl
rfind-append b (c ∷ front) back w = rw (rfind-append b front back w) refl

-- An address of a host, a colon and a number that fits an int is resolved for the host, with
-- colons or not, and has the number modulo 2 ^ 16 as its port; a host without a colon and without
-- a port has the port 1935.
pub parse_address_lem :
    (resolve : List ℕ → Option (List (Option (List ℕ)))) (host ds : List ℕ)
    → IsInt ds
    → (parse_address resolve (host ++ (58 ∷ ds)) ≡ with_port (value 0 ds % 2 ^ 16) (resolve host))
      × (IsWithout 58 host → parse_address resolve host ≡ with_port 1935 (resolve host))
unfolding parse_address resolve_at to_port
parse_address_lem resolve host ds i = (
  rw
      (
        rfind-append 58 host ds (IsDigits-IsWithout 58 ds refl i.digits),
        parse_address,
        take-append (length host) host (58 ∷ ds) refl,
        drop-append_add (length host + 1) 1 host (58 ∷ ds) refl,
        stoi_digits ds i.some_digit i.digits i.fits,
      )
      refl,
  λ w. rw (rfind-none 58 host w, parse_address) refl,
)
