-- ===== src/Http/Api/StatusFirst.antt =====
-- The responses that the handlers share set their status before they write.
use pet_urls.Prelude.{ℕ, String, Bytes, List, [], ◌++◌, inl, inr, Bool-cases, ◌=b=◌}
use pet_urls.Http.Writer.{Operation}
use pet_urls.Http.Writer.StatusFirst.{StatusFirst}
use pet_urls.Http.Api.{Libs, Answer, ApiErrorCode, write_response_as_json, write_error, set_cookie}

pub error-StatusFirst :
    (libs : Libs) (code : ApiErrorCode) (text : String) → StatusFirst (write_error libs code text)
unfolding write_error write_response_as_json
error-StatusFirst libs code text = tt

pub json-StatusFirst :
    (libs : Libs) (a : Answer) (n : ℕ) → StatusFirst (write_response_as_json libs a n)
unfolding write_response_as_json
json-StatusFirst libs a n = tt

pub set_cookie-StatusFirst :
    (text : Bytes) (ops : List Operation) → StatusFirst ops → StatusFirst (set_cookie text ++ ops)
set_cookie-StatusFirst text ops h = elim (Bool-cases (text =b= [])) [
  | inl empty ↦ rw empty h
  | inr printed ↦ rw printed h
]
