-- ===== src/Receiver/Sockets.antt =====
-- The sockets of src/gstrtpreceiver.cpp: `create_udp_socket`, the two constructors, and the
-- destructor. The system answers each call through `Answers`.
use amldigital_fpv.Prelude.{
  tally, held, ℕ, zero, suc, ◌+◌, ◌≤◌, ◌≡◌, refl, ap, Bool, true, false, List, [], ◌∷◌, ◌++◌,
  Option, none, some, take, length, length-append, if◌then◌else◌, arith,
}
use amldigital_fpv.Prelude.Int.{ℤ, pos, ltb_ℤ, to_unsigned}

-- A `bind` has the name and its length in bytes, or a port.
pub data SocketCall : Type 0 where
  made : SocketCall
  reuses_address : SocketCall
  reuses_port : SocketCall
  sets_buffer : ℤ → SocketCall
  binds_port : ℕ → SocketCall
  binds_name : List ℕ → ℕ → SocketCall
  closed : SocketCall

pub record Answers : Type 0 where
  pub gst_init_check : Bool
  pub socket : Bool
  pub bind : Bool

-- Whether there is a descriptor, and the calls behind it, the last in front.
abbrev pub Socket : Type 0
Socket = Bool × List SocketCall

-- `if (reuse) …` and `if (rcvbuf > 0) …`
unfoldable pub set_options : ℤ → Bool → List SocketCall → List SocketCall
set_options rcvbuf reuse calls =
    let calls' = if reuse then reuses_port ∷ reuses_address ∷ calls else calls in
    if ltb_ℤ (pos 0) rcvbuf then sets_buffer rcvbuf ∷ calls' else calls'

unfoldable pub create_udp_socket : Answers → ℤ → ℤ → Bool → List SocketCall → Socket
unfolding set_options
create_udp_socket answers port rcvbuf reuse calls =
    if answers.socket
    then (let bound = binds_port (to_unsigned 16 port) ∷ set_options rcvbuf reuse (made ∷ calls) in
        if answers.bind then (true, bound) else (false, closed ∷ bound))
    else (false, calls)

-- `strncpy(to, path, n)` fills `n` bytes.
unfoldable pub strncpy : ℕ → List ℕ → List ℕ
strncpy zero path = []
strncpy (suc n) [] = 0 ∷ strncpy n []
strncpy (suc n) (c ∷ path) = c ∷ strncpy n path

-- `addr.sun_path`, of 108 bytes.
unfoldable pub sun_path : List ℕ → List ℕ
unfolding strncpy
sun_path path = 0 ∷ (strncpy 106 path ++ (0 ∷ []))

-- The constructors: none is thrown, and leaves no object.
unfoldable pub receiver_on_port : Answers → Option Socket
receiver_on_port answers = if answers.gst_init_check then some (false, []) else none

unfoldable pub bind_path : Answers → List ℕ → List SocketCall → Bool × List SocketCall
bind_path answers path calls =
    let bound = binds_name (sun_path path) (2 + 1 + length path) ∷ calls in
    if answers.bind then (true, bound) else (false, closed ∷ bound)

-- With the calls also where it throws.
unfoldable pub receiver_on_path : Answers → List ℕ → Socket
unfolding bind_path
receiver_on_path answers path =
    if answers.gst_init_check
    then (if answers.socket then bind_path answers path (made ∷ []) else (false, []))
    else (false, [])

unfoldable pub destroy : Socket → Socket
destroy (sock, calls) = if sock then (false, closed ∷ calls) else (false, calls)

abbrev pub is_made : SocketCall → Bool
is_made made = true
is_made _ = false

abbrev pub is_closed : SocketCall → Bool
is_closed closed = true
is_closed _ = false

-- What is open is what was made and not closed.
abbrev pub IsCounted : Socket → Type 0
IsCounted s = tally is_made s.1 ≡ tally is_closed s.1 + held s.0

receiver_on_path-IsCounted :
    (answers : Answers) (path : List ℕ) → IsCounted (receiver_on_path answers path)
unfolding receiver_on_path bind_path tally
receiver_on_path-IsCounted answers path = ground arith

destroy-IsCounted : (s : Socket) → IsCounted s → IsCounted (destroy s) × ((destroy s).0 ≡ false)
unfolding destroy tally
destroy-IsCounted s c = ground arith

set_options-tally :
    (rcvbuf : ℤ) (reuse : Bool) (calls : List SocketCall)
    → (tally is_made (set_options rcvbuf reuse calls) ≡ tally is_made calls)
      × (tally is_closed (set_options rcvbuf reuse calls) ≡ tally is_closed calls)
unfolding set_options tally
set_options-tally rcvbuf reuse calls = ground arith

create_udp_socket-IsCounted :
    (answers : Answers) (port rcvbuf : ℤ) (reuse : Bool) (calls : List SocketCall)
    → IsCounted (false, calls)
    → IsCounted (create_udp_socket answers port rcvbuf reuse calls)
unfolding create_udp_socket tally
create_udp_socket-IsCounted answers port rcvbuf reuse calls c =
    ground (arith, set_options-tally rcvbuf reuse (made ∷ calls))

-- Whatever the system answers, on each path of the constructor on a name, an exception included, and
-- of `create_udp_socket` behind calls that left none open: every socket that was made is closed
-- again, but for the one that is returned, and the destructor closes that.
pub sockets-IsCounted :
    (answers : Answers) (path : List ℕ) (port rcvbuf : ℤ) (reuse : Bool) (calls : List SocketCall)
    → IsCounted (false, calls)
    → let named = receiver_on_path answers path in
      let udp = create_udp_socket answers port rcvbuf reuse calls in
      IsCounted named
      × IsCounted udp
      × IsCounted (destroy named)
      × IsCounted (destroy udp)
      × ((destroy named).0 ≡ false)
      × ((destroy udp).0 ≡ false)
sockets-IsCounted answers path port rcvbuf reuse calls c =
    let named = receiver_on_path-IsCounted answers path in
    let udp = create_udp_socket-IsCounted answers port rcvbuf reuse calls c in
    let (named_ends, named_none) = destroy-IsCounted _ named in
    let (udp_ends, udp_none) = destroy-IsCounted _ udp in
    (named, udp, named_ends, udp_ends, named_none, udp_none)

take-strncpy :
    (path rest : List ℕ) (n : ℕ)
    → length path ≤ n
    → take (length path) (strncpy n path ++ rest) ≡ path
unfolding strncpy
take-strncpy [] rest n h = refl
take-strncpy (c ∷ path) rest zero h = absurd (omega arith)
take-strncpy (c ∷ path) rest (suc n) h = ap (λ p. c ∷ p) (take-strncpy path rest n (omega arith))

strncpy-length : (path : List ℕ) (n : ℕ) → length (strncpy n path) ≡ n
unfolding strncpy
strncpy-length path zero = refl
strncpy-length [] (suc n) = ap suc (strncpy-length [] n)
strncpy-length (c ∷ path) (suc n) = ap suc (strncpy-length path n)

-- Behind the two bytes of the family, the name that `bind` reads for a path of at most 106 bytes is a
-- zero and the path, whole and with nothing behind it, and it lies inside the 108 bytes there are.
pub sun_path-name :
    (path : List ℕ)
    → length path ≤ 106
    → (take (suc (length path)) (sun_path path) ≡ 0 ∷ path)
      × (suc (length path) ≤ length (sun_path path))
      × (length (sun_path path) ≡ 108)
unfolding sun_path
sun_path-name path h =
    let whole = strncpy-length path 106 in
    let size = length-append (strncpy 106 path) (0 ∷ []) in
    (
      ap (λ p. 0 ∷ p) (take-strncpy path (0 ∷ []) 106 h),
      omega (arith, whole, size),
      omega (arith, whole, size),
    )
