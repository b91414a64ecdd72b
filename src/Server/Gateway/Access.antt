-- ===== src/Server/Gateway/Access.antt =====
-- Who gets past `authenticate_request` (crates/proxy-server/src/lib.rs).
use rpceth.Base.{
  ◌≡◌, ◌≢◌, ◌↔◌, refl, sym, ap, true, false, Option, none, some, List, [], ◌∷◌, Text, codes, same,
  same_iff, same_self, Bool-cases, inl, inr, if◌then◌else◌, or_option, arith,
}
use rpceth.Provider.{ProviderId}
use rpceth.Server.{RequestContext}
use rpceth.Server.Gateway.{
  read_query, check_key, Authenticated, passed, unauthorized, authenticate_request,
}

-- The value of the last pair with a name, which is none of the program's functions.
unfoldable pub last_value : Text → List (Text × Text) → Option Text
last_value name [] = none
last_value name ((n, v) ∷ more) =
    or_option (last_value name more) (if same n name then some v else none)

or_option-none {ℓ} :
    {A : Type ℓ} → (x y : Option A) → or_option (or_option x none) y ≡ or_option x y
or_option-none none y = refl
or_option-none (some a) y = refl

or_option-some {ℓ} :
    {A : Type ℓ}
    → (x y : Option A) (v : A) → or_option (or_option x (some v)) y ≡ or_option x (some v)
or_option-some none y v = refl
or_option-some (some a) y v = refl

apikey-ne-provider_id :
    (n : Text) → same n (codes "apikey") ≡ true → same n (codes "provider_id") ≡ false
unfolding same
apikey-ne-provider_id n e = rw ((same_iff n (codes "apikey")).0 e) refl

read_query-last_value :
    (query : List (Text × Text)) (key provider : Option Text)
    → read_query query key provider ≡ (
      or_option (last_value (codes "apikey") query) key,
      or_option (last_value (codes "provider_id") query) provider,
    )
unfolding read_query last_value
read_query-last_value [] key provider = refl
read_query-last_value ((n, v) ∷ more) key provider =
    let keys = last_value (codes "apikey") more in
    let named = last_value (codes "provider_id") more in
    elim (Bool-cases (same n (codes "apikey"))) [
      | inl keyed ↦
          rw
            (
              keyed,
              apikey-ne-provider_id n keyed,
              read_query-last_value more (some v) provider,
              or_option-some keys key v,
              or_option-none named provider,
            )
            refl
      | inr other ↦ elim (Bool-cases (same n (codes "provider_id"))) [
        | inl is_named ↦
            rw
              (
                other,
                is_named,
                read_query-last_value more key (some v),
                or_option-some named provider v,
                or_option-none keys key,
              )
              refl
        | inr skipped ↦
            rw
              (
                other,
                skipped,
                read_query-last_value more key provider,
                or_option-none keys key,
                or_option-none named provider,
              )
              refl
      ]
    ]

abbrev provider_of : Authenticated → Option ProviderId
provider_of (passed (some ctx)) = ctx.provider_override
provider_of (passed none) = none
provider_of unauthorized = none

check_key-passed_none :
    (api_key : Text) (key provider : Option Text) → check_key api_key key provider ≢ passed none
unfolding check_key
check_key-passed_none api_key none provider e = cc
check_key-passed_none api_key (some k) provider e = ground arith

check_key-passed :
    (api_key : Text) (key provider : Option Text) (ctx : RequestContext)
    → (check_key api_key key provider ≡ passed (some ctx))
      ↔ ((key ≡ some api_key) × (ctx.provider_override ≡ provider))
unfolding check_key
check_key-passed api_key none provider ctx = (λ e. cc, λ h. cc)
check_key-passed api_key (some k) provider ctx = elim (Bool-cases (same k api_key)) [
  | inl good ↦ rw good (
    λ e. (ap some ((same_iff k api_key).0 good), sym (ap provider_of e)),
    λ h. ap (λ o. passed (some (record { provider_override = o }))) (sym h.1),
  )
  | inr bad ↦ rw bad (λ e. cc, λ h. ground (arith, h.0, same_self api_key))
]

or_option-none_right {ℓ} : {A : Type ℓ} → (x : Option A) → or_option x none ≡ x
or_option-none_right none = refl
or_option-none_right (some a) = refl

-- A request for `/metrics` passes without a context. Any other passes with a context if and only
-- if the last pair named "apikey" has the server's key as its value, and the provider that the
-- context names is the value of the last pair named "provider_id".
pub authenticate_request_iff :
    (api_key path : Text) (query : List (Text × Text)) (ctx : RequestContext)
    → ((authenticate_request api_key path query ≡ passed none) ↔ (path ≡ codes "/metrics"))
      × ((authenticate_request api_key path query ≡ passed (some ctx)) ↔ (
          (path ≢ codes "/metrics")
          × (last_value (codes "apikey") query ≡ some api_key)
          × (ctx.provider_override ≡ last_value (codes "provider_id") query)))
unfolding authenticate_request
authenticate_request_iff api_key path query ctx =
    let keys = last_value (codes "apikey") query in
    let named = last_value (codes "provider_id") query in
    elim (Bool-cases (same path (codes "/metrics"))) [
      | inl metrics ↦
          let at = (same_iff path (codes "/metrics")).0 metrics in
          rw (metrics, authenticate_request)
            ((λ e. at, λ e. refl), (λ e. cc, λ h. elim (h.0 at) [ ]))
      | inr other ↦
          rw
            (
              other,
              authenticate_request,
              read_query-last_value query none none,
              or_option-none_right keys,
              or_option-none_right named,
            )
            (
              (
                λ e. elim (check_key-passed_none api_key keys named e) [ ],
                λ at. ground (arith, at, same_self (codes "/metrics")),
              ),
              (
                λ e.
                    let (keyed, is_named) = (check_key-passed api_key keys named ctx).0 e in
                    ((λ at. ground (arith, at, same_self (codes "/metrics"))), keyed, is_named),
                λ h. (check_key-passed api_key keys named ctx).1 (h.1, h.2),
              ),
            )
    ]
