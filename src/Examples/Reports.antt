-- ===== src/Examples/Reports.antt =====
-- The reports of single calls over the small worlds: the token "t" resolves and is not Bob's, and
-- Anna registers, logs in and has no session "rt".
use pet_urls.Prelude.{codes}
use pet_urls.Shortener.Service.{resolve_token, delete_token}
use pet_urls.Shortener.Reports.{
  ResolveReport, resolve_token-ResolveReport, DeleteReport, delete_token-DeleteReport,
}
use pet_urls.Auth.Service.{register, refresh}
use pet_urls.Auth.Reports.Registration.{RegisterReport, register-RegisterReport}
use pet_urls.Auth.Reports.Refresh.{RefreshReport, refresh-RefreshReport}
use pet_urls.Examples.Accounts.{desk}
use pet_urls.Examples.Sessions.{empty_desk, registered, anna, pass}
use pet_urls.Examples.Tokens.{demo, made}

resolve_token-ResolveReport_example :
    ResolveReport demo (codes "t") made (resolve_token demo (codes "t") made)
resolve_token-ResolveReport_example = resolve_token-ResolveReport demo (codes "t") made

delete_token-DeleteReport_example :
    DeleteReport demo
      (codes "t")
      (codes "bob")
      made
      (delete_token demo (codes "t") (codes "bob") made)
delete_token-DeleteReport_example = delete_token-DeleteReport demo (codes "t") (codes "bob") made

register-RegisterReport_example :
    RegisterReport desk anna pass empty_desk (register desk anna pass empty_desk)
register-RegisterReport_example = register-RegisterReport desk anna pass empty_desk

refresh-RefreshReport_example :
    RefreshReport desk (codes "rt") registered (refresh desk (codes "rt") registered)
refresh-RefreshReport_example = refresh-RefreshReport desk (codes "rt") registered
