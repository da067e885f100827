-- ===== src/HttpApi/Traced.antt =====
-- What every write of a response keeps: the request id's header, and the agreement of the recorder with
-- the response.
use fraud_detection_scoring.Prelude.{
  ℕ, String, Bool, true, false, none, some, List, [], ◌∷◌, ◌≡◌, refl, arith, str_eq, eq_iff,
  if◌then◌else◌,
}
use fraud_detection_scoring.HttpApi.{
  Body, Writer, set_key, get_key, set_header, write_header, write_body, write_json, write_error,
  failure,
}
use fraud_detection_scoring.HttpApi.Router.{header_name}

-- The status that the client gets: 200 if the handler set none.
abbrev pub final_status : {F : Type 0} → Writer F → ℕ
final_status w = elim w.status [ none ↦ 200 | some code ↦ code ]

get_key-set_key_other :
    (k j v : String) (m : List (String × String))
    → str_eq j k ≡ false
    → get_key k (set_key j v m) ≡ get_key k m
get_key-set_key_other k j v [] h = ground arith
get_key-set_key_other k j v ((i, u) ∷ m) h =
    ground (arith, eq_iff i j, eq_iff i k, eq_iff j k, get_key-set_key_other k j v m h)

-- The response carries the id, and the recorder knows its status.
pub record IsTraced {F : Type 0} (id : String) (w : Writer F) : Type 0 where
  pub header : get_key header_name w.headers ≡ id
  pub recorded : w.status ≡ (if w.written then some w.recorded else none)
  pub initial : w.written ≡ false → w.recorded ≡ 200

module _ {F : Type 0} (id : String) where
  pub IsTraced-final_status : (w : Writer F) → IsTraced id w → w.recorded ≡ final_status w
  IsTraced-final_status w t = ground (arith, t.recorded, t.initial)

  pub set_header-IsTraced :
      (k v : String) (w : Writer F)
      → str_eq k header_name ≡ false
      → IsTraced id w
      → IsTraced id (set_header k v w)
  unfolding set_header
  set_header-IsTraced k v w h t = record {
    header = ground (arith, get_key-set_key_other header_name k v w.headers h, t.header);
    recorded = t.recorded;
    initial = t.initial;
  }

  pub write_header-IsTraced :
      (code : ℕ) (w : Writer F) → IsTraced id w → IsTraced id (write_header code w)
  unfolding write_header
  write_header-IsTraced code w t = record {
    header = t.header;
    recorded = ground (arith, t.recorded, t.initial);
    initial = λ h. cc;
  }

  pub write_body-IsTraced :
      (b : Body F) (w : Writer F) → IsTraced id w → IsTraced id (write_body b w)
  unfolding write_body
  write_body-IsTraced b w t = record {
    header = ground (arith, t.header);
    recorded = ground (arith, t.recorded, t.initial);
    initial = λ h. ground arith;
  }

  pub write_json-IsTraced :
      (b : Bool) (code : ℕ) (body : Body F) (w : Writer F)
      → IsTraced id w
      → IsTraced id (write_json b code body w)
  unfolding write_json
  write_json-IsTraced false code body w t = write_header-IsTraced 500 w t
  write_json-IsTraced true code body w t =
      let typed = set_header "Content-Type" "application/json" w in
      write_body-IsTraced body (write_header code typed) (
        write_header-IsTraced code typed
          (set_header-IsTraced "Content-Type" "application/json" w refl t))

  pub write_error-IsTraced :
      (code : ℕ) (c m : String) (w : Writer F)
      → IsTraced id w
      → IsTraced id (write_error code c m w)
  unfolding write_error
  write_error-IsTraced code c m w t = write_json-IsTraced true code (failure c m) w t
