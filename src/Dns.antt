-- ===== src/Dns.antt =====
-- dnscrypt-proxy/dnsutils.go: the messages of codeberg.org/miekg/dns, as far as the proxy builds and
-- compares them. A name is its text, an address its bytes.
use dnscrypt_proxy_fork.Base.{
  ℕ, ◌+◌, ◌*◌, ◌/◌, ◌%◌, Bool, true, false, not, ◌&&◌, ◌||◌, List, [], ◌∷◌, ◌++◌, length, drop,
  take, get_elem?, replicate, Option, none, some, ◌>>=◌, ltb, leb, ◌==◌, if◌then◌else◌,
}
use dnscrypt_proxy_fork.Text.{Bytes, bytes_eq, drop_last, to_lower, cut_prefix, has_suffix}
pub mod Responses

-- The data of a resource record; `other` for a type that the proxy does not look into.
pub data Rdata : Type 0 where
  a : Bytes → Rdata
  aaaa : Bytes → Rdata
  cname : Bytes → Rdata
  svcb : ℕ → Bytes → Rdata
  https : ℕ → Bytes → Rdata
  hinfo : Bytes → Bytes → Rdata
  other : ℕ → Bytes → Rdata

pub record Rr : Type 0 where
  pub name : Bytes
  pub class : ℕ
  pub ttl : ℕ
  pub data' : Rdata

pub record Question : Type 0 where
  pub name : Bytes
  pub qtype : ℕ
  pub class : ℕ

-- An option of EDNS: an extended DNS error, a padding of a length, or another by its code.
pub data Edns0 : Type 0 where
  ede : ℕ → Bytes → Edns0
  padding : ℕ → Edns0
  option : ℕ → Bytes → Edns0

pub record Msg : Type 0 where
  pub id : ℕ
  pub opcode : ℕ
  pub response : Bool
  pub rcode : ℕ
  pub truncated : Bool
  pub recursion_desired : Bool
  pub recursion_available : Bool
  pub authenticated_data : Bool
  pub checking_disabled : Bool
  pub security : Bool
  pub udp_size : ℕ
  pub question : List Question
  pub answer : List Rr
  pub ns : List Rr
  pub extra : List Rr
  pub pseudo : List Edns0

-- What the proxy asks of the library: `Unpack`, `Pack` and `EqualName`.
pub record Codec : Type 0 where
  pub unpack : Bytes → Option Msg
  pub pack : Msg → Option Bytes
  pub equal_name : Bytes → Bytes → Bool

abbrev pub type_a : ℕ
type_a = 1

abbrev pub type_aaaa : ℕ
type_aaaa = 28

abbrev pub class_inet : ℕ
class_inet = 1

abbrev pub rcode_refused : ℕ
rcode_refused = 5

abbrev pub extended_error_forged_answer : ℕ
extended_error_forged_answer = 4

abbrev pub extended_error_filtered : ℕ
extended_error_filtered = 17

abbrev pub same_question : (Bytes → Bytes → Bool) → Question → Question → Bool
same_question equal_name q r = q.qtype == r.qtype && q.class == r.class && equal_name q.name r.name

-- Whether both have one question, and the same.
abbrev pub same_questions : (Bytes → Bytes → Bool) → List Question → List Question → Bool
same_questions equal_name (q ∷ []) (r ∷ []) = same_question equal_name q r
same_questions equal_name _ _ = false

-- `validateResponseQuestion` of two messages, whether it finds no error
unfoldable pub validate_response_question : (Bytes → Bytes → Bool) → Msg → Msg → Bool
validate_response_question equal_name query response =
    same_questions equal_name query.question response.question

-- `validateResponseForQuery`; `none` is the query that is nil.
unfoldable pub validate_response_for_query : (Bytes → Bytes → Bool) → Option Msg → Msg → Bool
validate_response_for_query equal_name none response = false
validate_response_for_query equal_name (some query) response =
    response.response
    && response.id == query.id
    && validate_response_question equal_name query response

unfoldable pub empty_response_from_message : Msg → Msg
empty_response_from_message src = record {
  id = src.id;
  opcode = src.opcode;
  response = true;
  rcode = 0;
  truncated = false;
  recursion_desired = src.recursion_desired;
  recursion_available = true;
  authenticated_data = false;
  checking_disabled = false;
  security = ltb 0 src.udp_size && src.security;
  udp_size = src.udp_size;
  question = src.question;
  answer = [];
  ns = [];
  extra = [];
  pseudo = [];
}

unfoldable pub truncated_response : Codec → Bytes → Option Bytes
truncated_response dns packet = elim (dns.unpack packet) [
  | none ↦ none
  | some src ↦ dns.pack (record (empty_response_from_message src) { truncated = true })
]

-- The ten zeros and two ones before an IPv4 address in 16 bytes.
abbrev pub v4_in_v6_prefix : Bytes
v4_in_v6_prefix = 0 ∷ 0 ∷ 0 ∷ 0 ∷ 0 ∷ 0 ∷ 0 ∷ 0 ∷ 0 ∷ 0 ∷ 255 ∷ 255 ∷ []

-- `To4` and `To16` of net.IP
unfoldable pub to_4 : Bytes → Option Bytes
to_4 ip =
    if length ip == 4
    then some ip
    else if length ip == 16
    then cut_prefix v4_in_v6_prefix ip
    else none

unfoldable pub to_16 : Bytes → Option Bytes
to_16 ip =
    if length ip == 4
    then some (v4_in_v6_prefix ++ ip)
    else if length ip == 16
    then some ip
    else none

-- The address that is forged for a type, if there is one; an address that is nil is `none`.
unfoldable pub forged_rdata : ℕ → Option Bytes → Option Bytes → Option Rdata
forged_rdata qtype ipv4 ipv6 =
    if qtype == type_a
    then (ipv4 >>= to_4 >>= (λ ip. some (a ip)))
    else if qtype == type_aaaa
    then (ipv6 >>= to_16 >>= (λ ip. some (aaaa ip)))
    else none

-- The texts of the HINFO record and of the extended error.
pub record BlockedTexts : Type 0 where
  pub cpu : Bytes
  pub os : Bytes
  pub extra_text : Bytes

-- The extended error, which only a query with EDNS gets.
abbrev pub with_ede : ℕ → Bytes → Msg → Msg
with_ede code text m =
    if ltb 0 m.udp_size then record m { pseudo = m.pseudo ++ ede code text ∷ [] } else m

abbrev pub answer_with : Bytes → ℕ → Rdata → Msg → Msg
answer_with qname ttl rdata m = record m {
  answer = record { name = qname; class = class_inet; ttl = ttl; data' = rdata } ∷ [];
}

unfoldable pub refused_response_from_message :
    BlockedTexts → Msg → Bool → Option Bytes → Option Bytes → ℕ → Msg
refused_response_from_message texts src refused_code ipv4 ipv6 ttl =
    let dst = empty_response_from_message src in
    if refused_code
    then with_ede extended_error_filtered [] (record dst { rcode = rcode_refused })
    else elim src.question [
      | [] ↦ with_ede extended_error_filtered [] dst
      | q ∷ qs ↦ elim (forged_rdata q.qtype ipv4 ipv6) [
        | none ↦
            with_ede extended_error_filtered []
              (answer_with q.name ttl (hinfo texts.cpu texts.os) dst)
        | some rdata ↦
            with_ede extended_error_forged_answer texts.extra_text
              (answer_with q.name ttl rdata dst)
      ]
    ]

abbrev pub byte_at : Bytes → ℕ → ℕ
byte_at packet i = elim (get_elem? packet i) [ none ↦ 0 | some b ↦ b ]

-- `packet[2] & 2 == 2`; the callers' packets have 17 bytes.
unfoldable pub has_tc_flag : Bytes → Bool
has_tc_flag packet = byte_at packet 2 / 2 % 2 == 1

unfoldable pub transaction_id : Bytes → ℕ
transaction_id packet = byte_at packet 0 * 256 + byte_at packet 1

unfoldable pub set_transaction_id : Bytes → ℕ → Bytes
set_transaction_id packet tid = (tid / 256) ∷ (tid % 256) ∷ drop 2 packet

-- Whether a byte starts no ASCII character.
unfoldable pub any_rune : Bytes → Bool
any_rune [] = false
any_rune (c ∷ s) = if leb 128 c then true else any_rune s

-- `NormalizeQName`; `none` is the error of a name that is not ASCII. 46 is the dot.
unfoldable pub normalize_qname : Bytes → Option Bytes
normalize_qname str =
    let s = if has_suffix str (46 ∷ []) then drop_last str else str in
    if length str == 0 || bytes_eq str (46 ∷ [])
    then some (46 ∷ [])
    else if any_rune s
    then none
    else some (to_lower s)
