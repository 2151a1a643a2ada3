-- ===== src/Command/Start/Shown.antt =====
-- The banner of a start, and the guest that uses it.
mod Tests
use Prim.Native.String.{◌++◌ as str_append}
use kubegate.Prelude.{String, none, some, List, ◌≡◌, ◌≢◌, ◌↔◌, sym, ◌∙◌, subst}
use kubegate.Text.{split}
use kubegate.Header
use kubegate.Header.{Header}
use kubegate.Authn.{authenticate}
use kubegate.Authn.Token.{Presents, authenticate_lem}
use kubegate.Server.Disk.{Disk}
use kubegate.Server.TokenFile.Kept.{IsLong}
use kubegate.Server.Kubeconfig.Pasted.{value_of, server_key, token_key, IsPlain, banner-value_of}
use kubegate.Command.Start.{Environment, Listening, listening, real_main, shown}
use kubegate.Command.Start.Sound.{IsUsable}
use kubegate.Command.Start.Whole.{real_main-IsRun}

IsLong-ne-nil : (tok : String) → IsLong tok → tok ≢ ""
IsLong-ne-nil tok h e = cc (rw e at h)

-- None of the listener's texts that the banner shows holds a newline.
abbrev pub ShowsPlain : (String → String) → Listening → Type 0
ShowsPlain encode l =
    IsPlain encode (str_append "https://" l.address) l.tls.cert l.token l.logger.mode
      l.logger.context

-- Whatever the command line: where the program comes to listen, the kubeconfig in the banner gives the
-- listener's address, and a token with which a request is authenticated exactly when its Authorization
-- header is the scheme bearer, in any case, a space, and that token. The texts that the banner shows
-- must hold no newline, the paths of certificate and key must differ, and random tokens must be long
-- enough, with no white space at their ends.
pub real_main-banner :
    (env : Environment) (args : List String) (d : Disk) (l : Listening) (encode : String → String)
    (h : Header)
    → IsUsable env
    → (real_main env args d).0 ≡ listening l
    → ShowsPlain encode l
    → let lines = split 10 (shown encode l) in
      (value_of server_key lines ≡ some (str_append "https://" l.address))
      × ((tok : String) × (value_of token_key lines ≡ some tok)
          × ((authenticate l.options.auth h ≡ none) ↔ Presents (Header.get "Authorization" h) tok))
real_main-banner env args d l encode h u r plain =
    let s = (real_main-IsRun env args d l u r).sound in
    let (server, tok) =
      banner-value_of encode (str_append "https://" l.address) l.tls.cert l.token l.logger.mode
        l.logger.context plain in
    (
      server,
      (
        l.token,
        tok,
        subst
            (λ t.
              (authenticate l.options.auth h ≡ none) ↔ Presents (Header.get "Authorization" h) t)
            s.auth
            (authenticate_lem l.options.auth h
              (λ e. IsLong-ne-nil l.token s.kept.long (sym s.auth ∙ e))),
      ),
    )
