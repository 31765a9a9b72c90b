-- ===== src/Adverts/Accepting.antt =====
-- Accepting a request for an advert: `accept_request` on what `take_request` leaves.
use box_fraise_server.Prelude.{
  ℕ, ◌≡◌, refl, ap, ◌∙◌, inl, inr, false, Option, none, some, arith, List, [], ◌∷◌, Option-cases,
}
use box_fraise_server.Prelude.Integers.{ℤ}
use box_fraise_server.Prelude.Text.{Text}
use box_fraise_server.Errors.{ok, err, not_found}
use box_fraise_server.Server.{Env}
use box_fraise_server.Table.{find, exists, update}
use box_fraise_server.Table.Search.{update-none}
use box_fraise_server.Adverts.Types.{AdminRequest, accepted, Db}
use box_fraise_server.Adverts.Repository.{Locale}
use box_fraise_server.Adverts.Requests.{
  is_takeable, take_request, insert, insert_advertiser, advertiser_for,
}
use box_fraise_server.Adverts.Service.{
  put_up, put_up_request, conclude_put_up, conclude_accept, accept_request,
}

abbrev take : List AdminRequest → ℕ → List AdminRequest
take rs id = update (is_takeable id) (λ r. record r { status = accepted }) rs

-- Nothing is left to take.
taken-none : (id : ℕ) (rs : List AdminRequest) → find (is_takeable id) (take rs id) ≡ none
unfolding find update
taken-none id [] = refl
taken-none id (r ∷ rs) = ground (arith, taken-none id rs)

taken-exists : (id : ℕ) (rs : List AdminRequest) → exists (is_takeable id) (take rs id) ≡ false
unfolding exists update
taken-exists id [] = refl
taken-exists id (r ∷ rs) = ground (arith, taken-exists id rs)

insert-requests :
    (now id advertiser_id : ℕ) (name teaser body : Text) (link : Option Text) (price pays opens : ℤ)
    (db : Db) {t : Db}
    → insert now id advertiser_id name teaser body link price pays opens db ≡ some t
    → t.advert_requests ≡ db.advert_requests
unfolding insert
insert-requests now id advertiser_id name teaser body link price pays opens db h = ground arith

advertiser_for-requests :
    (locale : Locale) (now id : ℕ) (name contact : Text) (db : Db) {v : ℕ} {t : Db}
    → advertiser_for locale now id name contact db ≡ some (v, t)
    → t.advert_requests ≡ db.advert_requests
unfolding advertiser_for insert_advertiser
advertiser_for-requests locale now id name contact db h = ground arith

put_up-requests :
    (locale : Locale) (env : Env) (name contact teaser body : Text) (link : Option Text)
    (price pays opens : ℤ) (db : Db) {t : Db}
    → put_up locale env name contact teaser body link price pays opens db ≡ some t
    → t.advert_requests ≡ db.advert_requests
unfolding put_up
put_up-requests locale env name contact teaser body link price pays opens db h =
    elim (Option-cases (advertiser_for locale env.db_now env.other_uuid name contact db)) [
      | inl e ↦ cc (rw (e, put_up) at h)
      | inr ((v, s), e) ↦
          insert-requests env.db_now env.uuid v name teaser body link price pays opens s
            (rw (e, put_up) at h)
          ∙ advertiser_for-requests locale env.db_now env.other_uuid name contact db e
    ]

conclude_put_up-requests :
    (env : Env) (admin : ℕ) (r : AdminRequest) (o : Option Db) (db : Db) (rs : List AdminRequest)
    {a : ℕ}
    → ((t : Db) → o ≡ some t → t.advert_requests ≡ rs)
    → (conclude_put_up env admin r o db).0 ≡ ok a
    → (conclude_put_up env admin r o db).1.advert_requests ≡ rs
unfolding conclude_put_up
conclude_put_up-requests env admin r none db rs k h = cc
conclude_put_up-requests env admin r (some t) db rs k h = k t refl

conclude_accept-requests :
    (locale : Locale) (env : Env) (admin : ℕ) (o : Option AdminRequest) (t db : Db) {a : ℕ}
    → (conclude_accept locale env admin o t db).0 ≡ ok a
    → (conclude_accept locale env admin o t db).1.advert_requests ≡ t.advert_requests
unfolding conclude_accept put_up_request
conclude_accept-requests locale env admin none t db h = cc
conclude_accept-requests locale env admin (some r) t db h =
    conclude_put_up-requests env admin r _ db t.advert_requests
      (λ s made. put_up-requests locale env _ _ _ _ _ _ _ _ t made) h

nothing_to_take :
    (locale : Locale) (env : Env) (admin id : ℕ) (db : Db)
    → find (is_takeable id) db.advert_requests ≡ none
    → exists (is_takeable id) db.advert_requests ≡ false
    → accept_request locale env admin id db ≡ (err not_found, db)
unfolding accept_request take_request conclude_accept
nothing_to_take locale env admin id db h k =
    rw (h, accept_request, take_request, conclude_accept)
      (ap (λ rs. (err not_found, record db { advert_requests = rs }))
        (update-none (is_takeable id) (λ r. record r { status = accepted }) db.advert_requests k))

-- Once a request for an advert has been accepted, accepting it again at once, by the same admin
-- or another, finds nothing and changes nothing.
accept_request-once :
    (locale : Locale) (env env' : Env) (admin admin' id : ℕ) (db : Db) {a : ℕ}
    → (accept_request locale env admin id db).0 ≡ ok a
    → let t = (accept_request locale env admin id db).1 in
      accept_request locale env' admin' id t ≡ (err not_found, t)
unfolding accept_request take_request
accept_request-once locale env env' admin admin' id db h =
    let t = (accept_request locale env admin id db).1 in
    let kept : t.advert_requests ≡ take db.advert_requests id =
      conclude_accept-requests locale env admin _ _ db h in
    nothing_to_take locale env' admin' id t
      (ap (find (is_takeable id)) kept ∙ taken-none id db.advert_requests)
      (ap (exists (is_takeable id)) kept ∙ taken-exists id db.advert_requests)
