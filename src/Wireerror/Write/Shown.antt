-- ===== src/Wireerror/Write/Shown.antt =====
-- The header of a failure's response, internal/wireerror/wireerror.go.
use wavefront.Base.{
  String, ◌≡◌, refl, Bool, true, false, not, ◌&&◌, [], if◌then◌else◌, ◌==◌, arith, subst, eq_iff,
  inl, inr, Bool-cases,
}
use wavefront.Base.Dict.{put}
use wavefront.Headers.{Header, get, set}
use wavefront.Headers.Copy.{get-set}
use wavefront.Json.{Bytes}
use wavefront.Wireerror.{Error, code_name, media_type_protobuf}
use wavefront.Wireerror.Write.{
  version_unknown, is_timeout, retry_header, headers, set_each, set_all, write,
}

-- The Retry-After of a failure: 0 on a timeout, else what was attached.
abbrev pub retry_after_of : Error → String
retry_after_of e = if is_timeout e.code then "0" else e.retry_after

-- The value of a header in the response to a failure.
abbrev pub shown : Error → String → Header → String → String
shown e contract_version w k =
    if "X-Wavefront-Contract-Version" == k
    then (if contract_version == "" then version_unknown else contract_version)
    else if "X-Wavefront-Error" == k
    then code_name e.code
    else if "Content-Type" == k
    then media_type_protobuf
    else if "Retry-After" == k && not (retry_after_of e == "")
    then retry_after_of e
    else get k w

-- A text is not two different names.
one_name : (a b k : String) → (a == b) ≡ false → (a == k) ≡ true → (b == k) ≡ false
one_name a b k h e =
    subst (λ i. (b == i) ≡ false) ((eq_iff a k).0 e) (ground (arith, eq_iff a b, eq_iff b a, h))

set_all-one :
    (w : Header)
    → set_all (set "Content-Type" media_type_protobuf []) w
      ≡ set "Content-Type" media_type_protobuf w
unfolding set_all set_each set put
set_all-one w = refl

set_all-two :
    (v : String) (w : Header)
    → set_all (set "Retry-After" v (set "Content-Type" media_type_protobuf [])) w
      ≡ set "Retry-After" v (set "Content-Type" media_type_protobuf w)
unfolding set_all set_each set put
set_all-two v w = refl

-- What a read gives behind the two.
get-set_all-two :
    (v : String) (w : Header) (k : String)
    → get k (set_all (set "Retry-After" v (set "Content-Type" media_type_protobuf [])) w) ≡ (
        if "Content-Type" == k
        then media_type_protobuf
        else if "Retry-After" == k
        then v
        else get k w)
get-set_all-two v w k = ground (
  arith,
  set_all-two v w,
  one_name "Content-Type" "Retry-After" k refl,
  get-set "Retry-After" k v (set "Content-Type" media_type_protobuf w),
  get-set "Content-Type" k media_type_protobuf w,
)

get-set_all-one :
    (w : Header) (k : String)
    → get k (set_all (set "Content-Type" media_type_protobuf []) w)
      ≡ (if "Content-Type" == k then media_type_protobuf else get k w)
get-set_all-one w k = ground (arith, set_all-one w, get-set "Content-Type" k media_type_protobuf w)

retry_header-shown :
    (b : Bool) (retry_after : String) (w : Header) (k : String)
    → get k (set_all (retry_header b retry_after (set "Content-Type" media_type_protobuf [])) w) ≡ (
        if "Content-Type" == k
        then media_type_protobuf
        else if "Retry-After" == k && not ((if b then "0" else retry_after) == "")
        then (if b then "0" else retry_after)
        else get k w)
unfolding retry_header
retry_header-shown true retry_after w k = ground (arith, get-set_all-two "0" w k)
retry_header-shown false retry_after w k = elim (Bool-cases (retry_after == "")) [
  | inl e ↦ ground (arith, e, get-set_all-one w k)
  | inr e ↦ ground (arith, e, get-set_all-two retry_after w k)
]

-- Under every key, the response to a failure shows the protocol's value of the four headers that
-- a failure owns, and what the response had under any other; its status is the failure's.
pub write-shown :
    (marshal_strings : String → String → Bytes) (w : Header) (e : Error)
    (contract_version k : String)
    → (get k (write marshal_strings w e contract_version).header ≡ shown e contract_version w k)
      × ((write marshal_strings w e contract_version).status ≡ e.status)
unfolding write headers
write-shown marshal_strings w e contract_version k =
    let version = if contract_version == "" then version_unknown else contract_version in
    let h =
      set_all
        (retry_header (is_timeout e.code) e.retry_after (set "Content-Type" media_type_protobuf []))
        w in
    (
      ground (
        arith,
        get-set "X-Wavefront-Contract-Version" k version
            (set "X-Wavefront-Error" (code_name e.code) h),
        get-set "X-Wavefront-Error" k (code_name e.code) h,
        retry_header-shown (is_timeout e.code) e.retry_after w k,
      ),
      refl,
    )
