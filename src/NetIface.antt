-- ===== src/NetIface.antt =====
-- mesh/network/meshx_net_iface.c: network interfaces and the bearers they are connected to.
-- An interface and a bearer are known by numbers that stand for their addresses. `none` in a result is
-- a call through a null pointer, or an access of an interface that is not in the list.
use meshx.Base.{
  ℕ, ◌+◌, ◌%◌, ◌^◌, Bool, true, false, Option, none, some, List, [], ◌∷◌, ◌++◌, length, leb, ◌==◌,
  if◌then◌else◌, ◌>>=◌,
}
use meshx.Base.Errno.{Ret, success, mem, inval, already}

-- MESHX_NET_IFACE_TYPE_*
pub data IfaceType : Type 0 where
  invalid adv gatt loopback : IfaceType

-- `meshx_net_iface_filter_info_t`
pub record FilterInfo : Type 0 where
  pub total_send : ℕ
  pub total_receive : ℕ
  pub filtered_send : ℕ
  pub filtered_receive : ℕ

-- `meshx_net_iface_info_t`. A filter for output gets the source and the destination.
pub record Iface : Type 0 where
  pub addr : ℕ
  pub type : IfaceType
  pub bearer : Option ℕ
  pub ifilter : Option Bool
  pub ofilter : Option (ℕ → ℕ → Bool)
  pub filter_info : FilterInfo

-- The part of a bearer that this file uses.
pub record Bearer : Type 0 where
  pub addr : ℕ
  pub is_adv : Bool
  pub net_iface : Option ℕ

-- The list of interfaces, and the bearers.
pub record Ifaces : Type 0 where
  pub net_iface_list : List Iface
  pub bearers : List Bearer

abbrev pub no_info : FilterInfo
no_info = record { total_send = 0; total_receive = 0; filtered_send = 0; filtered_receive = 0 }

unfoldable pub find_iface : ℕ → List Iface → Option Iface
find_iface a [] = none
find_iface a (i ∷ is) = if i.addr == a then some i else find_iface a is

unfoldable pub put_iface : Iface → List Iface → List Iface
put_iface u [] = []
put_iface u (i ∷ is) = if i.addr == u.addr then u ∷ is else i ∷ put_iface u is

unfoldable pub remove_iface : ℕ → List Iface → List Iface
remove_iface a [] = []
remove_iface a (i ∷ is) = if i.addr == a then is else i ∷ remove_iface a is

unfoldable pub find_bearer : ℕ → List Bearer → Option Bearer
find_bearer a [] = none
find_bearer a (b ∷ bs) = if b.addr == a then some b else find_bearer a bs

-- An assignment to a bearer's `net_iface`.
unfoldable pub set_net_iface : ℕ → Option ℕ → List Bearer → List Bearer
set_net_iface a o [] = []
set_net_iface a o (b ∷ bs) =
    if b.addr == a then record b { net_iface = o } ∷ bs else b ∷ set_net_iface a o bs

-- meshx_request_net_iface, with what malloc gives. The maximum number is an argument.
unfoldable pub request_net_iface : ℕ → Option Iface → Ifaces → Option Iface
request_net_iface max_num fresh s = if leb max_num (length s.net_iface_list) then none else fresh

unfoldable pub create_loopback : ℕ → Option Iface → Ifaces → Ret × Ifaces
create_loopback max_num fresh s = elim (request_net_iface max_num fresh s) [
  | none ↦ (mem, s)
  | some m ↦
      let i : Iface = record {
        addr = m.addr;
        type = loopback;
        bearer = none;
        ifilter = some true;
        ofilter = some (λ src dst. true);
        filter_info = no_info;
      } in
      (success, record s { net_iface_list = s.net_iface_list ++ (i ∷ []) })
]

unfoldable pub iface_init : ℕ → Option Iface → Ifaces → Ret × Ifaces
iface_init max_num fresh s = create_loopback max_num fresh (record s { net_iface_list = [] })

-- meshx_net_iface_create. Its memset clears as many bytes as a pointer has: of the fields, the type.
unfoldable pub iface_create : ℕ → Option Iface → Ifaces → Option ℕ × Ifaces
iface_create max_num fresh s = elim (request_net_iface max_num fresh s) [
  | none ↦ (none, s)
  | some m ↦ (
    some m.addr,
    record s { net_iface_list = s.net_iface_list ++ (record m { type = invalid } ∷ []) },
  )
]

-- The assignment through a bearer pointer that may be null.
abbrev pub unlink : Option ℕ → List Bearer → List Bearer
unlink o bs = elim o [ none ↦ bs | some b ↦ set_net_iface b none bs ]

-- meshx_net_iface_delete with meshx_release_net_iface.
unfoldable pub iface_delete : Option ℕ → Ifaces → Option Ifaces
iface_delete none s = some s
iface_delete (some a) s = find_iface a s.net_iface_list >>= λ i. some (record {
  net_iface_list = remove_iface a s.net_iface_list;
  bearers = unlink i.bearer s.bearers;
})

-- meshx_net_iface_connect of an interface and a bearer that are not null.
unfoldable pub connect :
    Iface → Bearer → Option Bool → Option (ℕ → ℕ → Bool) → Ifaces → Ret × Ifaces
connect i b in_filter out_filter s = elim i.bearer [
  | some _ ↦ (already, s)
  | none ↦ elim b.net_iface [
    | some _ ↦ (already, s)
    | none ↦
        let u : Iface = record i {
          type = if b.is_adv then adv else gatt;
          bearer = some b.addr;
          ifilter = elim in_filter [ none ↦ some true | some f ↦ some f ];
          ofilter = elim out_filter [ none ↦ some (λ src dst. true) | some f ↦ some f ];
        } in
        (
          success,
          record {
            net_iface_list = put_iface u s.net_iface_list;
            bearers = set_net_iface b.addr (some i.addr) s.bearers;
          },
        )
  ]
]

unfoldable pub iface_connect :
    Option ℕ → Option ℕ → Option Bool → Option (ℕ → ℕ → Bool) → Ifaces → Option (Ret × Ifaces)
iface_connect none b in_filter out_filter s = some (inval, s)
iface_connect (some a) none in_filter out_filter s = some (inval, s)
iface_connect (some a) (some b) in_filter out_filter s = find_iface a s.net_iface_list >>= λ i.
    find_bearer b s.bearers >>= λ bearer. some (connect i bearer in_filter out_filter s)

unfoldable pub iface_disconnect : Option ℕ → Ifaces → Option Ifaces
iface_disconnect none s = some s
iface_disconnect (some a) s = find_iface a s.net_iface_list >>= λ i.
    let u : Iface = record i {
      type = invalid;
      bearer = none;
      filter_info = no_info;
      ifilter = none;
      ofilter = none;
    } in
    some (record {
      net_iface_list = put_iface u s.net_iface_list;
      bearers = unlink i.bearer s.bearers;
    })

unfoldable pub is_connect : Iface → Bool
is_connect i = elim i.type [
  | invalid ↦ false
  | loopback ↦ true
  | _ ↦ elim i.bearer [ none ↦ false | some _ ↦ true ]
]

-- meshx_net_iface_ifilter and _ofilter: does the message pass? The counters are 32-bit words.
unfoldable pub iface_ifilter : ℕ → Ifaces → Option (Bool × Ifaces)
iface_ifilter a s = find_iface a s.net_iface_list >>= λ i. i.ifilter >>= λ pass.
    let info = i.filter_info in
    let info' : FilterInfo = record info {
      total_receive = (info.total_receive + 1) % 2 ^ 32;
      filtered_receive =
          if pass then info.filtered_receive else (info.filtered_receive + 1) % 2 ^ 32;
    } in
    some (
      pass,
      record s { net_iface_list = put_iface (record i { filter_info = info' }) s.net_iface_list },
    )

unfoldable pub iface_ofilter : ℕ → ℕ → ℕ → Ifaces → Option (Bool × Ifaces)
iface_ofilter a src dst s = find_iface a s.net_iface_list >>= λ i. i.ofilter >>= λ f.
    let info = i.filter_info in
    let info' : FilterInfo = record info {
      total_send = (info.total_send + 1) % 2 ^ 32;
      filtered_send = if f src dst then info.filtered_send else (info.filtered_send + 1) % 2 ^ 32;
    } in
    some (
      f src dst,
      record s { net_iface_list = put_iface (record i { filter_info = info' }) s.net_iface_list },
    )

-- meshx_net_iface_get: the first interface for no bearer. On an empty list it is no interface.
unfoldable pub iface_get : Option ℕ → Ifaces → Option (Option ℕ)
iface_get none s = elim s.net_iface_list [ [] ↦ none | i ∷ is ↦ some (some i.addr) ]
iface_get (some b) s = find_bearer b s.bearers >>= λ bearer. some bearer.net_iface

-- meshx_net_iface_traverse_start and _continue.
unfoldable pub iface_traverse_start : List Iface → Option ℕ
iface_traverse_start [] = none
iface_traverse_start (i ∷ is) = some i.addr

unfoldable pub iface_traverse_continue : ℕ → List Iface → Option ℕ
iface_traverse_continue a [] = none
iface_traverse_continue a (i ∷ is) =
    if i.addr == a then iface_traverse_start is else iface_traverse_continue a is
