-- ===== src/Net/Dns.antt =====
-- net/dns.rs: the query, the names and the answers in a response, and the exchange. `poll` is
-- `super::poll_once`.
pub mod Views
pub mod Names
pub mod Answers
use moon_os.Common.{
  ℕ, zero, suc, ◌+◌, ◌%◌, bit_and, true, false, ◌&&◌, ◌||◌, Option, none, some, List, [], ◌∷◌, ◌++◌,
  ltb, leb, ◌==◌, if◌then◌else◌, ◌>>=◌, length, get_elem?, slice,
}
use moon_os.Common.Bytes.{Bytes, be16}
use moon_os.Net.State.{Net, word_at}
use moon_os.Net.Udp.{send, take_port}

abbrev prepend_first : ℕ → List Bytes → List Bytes
prepend_first b [] = (b ∷ []) ∷ []
prepend_first b (l ∷ ls) = (b ∷ l) ∷ ls

-- `name.split('.')`.
unfoldable pub labels_of : Bytes → List Bytes
labels_of [] = [] ∷ []
labels_of (b ∷ bs) = if b == b'.' then [] ∷ labels_of bs else prepend_first b (labels_of bs)

abbrev pub encode_labels : List Bytes → Bytes
encode_labels [] = []
encode_labels (l ∷ ls) = (length l % 256) ∷ (l ++ encode_labels ls)

-- The name, QTYPE and QCLASS.
abbrev question : Bytes → Bytes
question name = encode_labels (labels_of name) ++ 0 ∷ (be16 1 ++ be16 1)

abbrev pub build_query : ℕ → Bytes → Bytes
build_query id name =
    (be16 id ++ (be16 0x0100 ++ (be16 1 ++ (be16 0 ++ (be16 0 ++ be16 0))))) ++ question name

-- The loop of `skip_name`. Each round moves on, so the length is fuel enough.
pub skip_from : ℕ → Bytes → ℕ → ℕ
skip_from zero content i = i
skip_from (suc n) content i = elim (get_elem? content i) [
  | none ↦ i
  | some len ↦ elim (len == 0) [
    | true ↦ i + 1
    | false ↦ elim (bit_and len 0xC0 == 0xC0) [
      | true ↦ i + 2
      | false ↦ skip_from n content (i + 1 + len)
    ]
  ]
]

unfoldable pub skip_name : Bytes → ℕ → ℕ
unfolding skip_from
skip_name content i = skip_from (length content) content i

-- The loop over the answers, with the answers that are left.
pub find_address : ℕ → Bytes → ℕ → Option Bytes
unfolding skip_name
find_address zero content i = none
find_address (suc n) content i =
    let j = skip_name content i in
    let rdlength = word_at content (j + 8) in
    elim (leb (length content) i || ltb (length content) (j + 10)) [
      | true ↦ none
      | false ↦ elim (word_at content j == 1 && (rdlength == 4 && leb (j + 14) (length content))) [
        | true ↦ some (slice (j + 10) (j + 14) content)
        | false ↦ find_address n content (j + 10 + rdlength)
      ]
    ]

unfoldable pub parse_response : Bytes → ℕ → Option Bytes
unfolding find_address skip_name
parse_response content expected_id =
    if leb 12 (length content) && word_at content 0 == expected_id
    then find_address (word_at content 6) content (skip_name content 12 + 4)
    else none

abbrev dns_port : ℕ
dns_port = 53

abbrev query_port : ℕ
query_port = 50000

abbrev query_spin_limit : ℕ
query_spin_limit = 2000000

abbrev query_id : ℕ
query_id = 0xBEEF

-- The wait for a response with an address, with the polls that are left.
wait_for_address : (Net → Net) → ℕ → Net → Net × Option Bytes
unfolding parse_response take_port
wait_for_address poll zero s = (s, none)
wait_for_address poll (suc spins) s =
    let (taken, response) = take_port (poll s) query_port in
    elim (response >>= λ r. parse_response r query_id) [
      | some ip ↦ (taken, some ip)
      | none ↦ wait_for_address poll spins taken
    ]

unfoldable query_a : (Net → Net) → Net → Bytes → Bytes → Net × Option Bytes
unfolding wait_for_address
query_a poll s name dns_server =
    let (asked, went) = send poll s query_port dns_server dns_port (build_query query_id name) in
    elim went [ false ↦ (asked, none) | true ↦ wait_for_address poll query_spin_limit asked ]
