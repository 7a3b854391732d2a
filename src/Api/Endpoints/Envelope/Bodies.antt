-- ===== src/Api/Endpoints/Envelope/Bodies.antt =====
-- The form of what each operation and each read answers.
use fleet_tracking_backend.Prelude.{ℕ, refl, inl, inr, List}
use fleet_tracking_backend.Store.{Database, User}
use fleet_tracking_backend.Store.Session.{Session}
use fleet_tracking_backend.Auth.Passwords.{Hasher}
use fleet_tracking_backend.Api.Responses.{
  EmailCheck, ErrorDetail, user_answer, users_answer, route_answer, routes_answer, vehicle_answer,
  fleet_answer, assignment_answer, polyline_answer, live_answer, history_answer, Response,
}
use fleet_tracking_backend.Api.Inputs.{
  Operation, post_route, list_all_routes, read_route, change_route, drop_route, post_vehicle,
  list_all_vehicles, read_vehicle, change_vehicle, drop_vehicle, post_user, list_all_users,
  read_user, change_user, drop_user, put_assignment, View, my_profile, my_assignment, my_route,
  my_vehicle_current, my_vehicle_history, Call, validate, validate_view,
}
use fleet_tracking_backend.Api.Endpoints.{success_status, finish, serve, view}
use fleet_tracking_backend.Api.Responses.{
  Content, render, user_content, users_content, route_content, routes_content, user_out, route_out,
  each,
}
use fleet_tracking_backend.Admin.Routes.{list_routes}
use fleet_tracking_backend.Admin.Users.{list_users}
use fleet_tracking_backend.Api.Endpoints.Accepted.{Whenever}
use fleet_tracking_backend.Api.Endpoints.Envelope.{
  Fits, OperationBody, ViewBody, listed-Fits, reading-Fits, changing-Fits, deleting-Fits,
  mapped-Whenever, polyline-Whenever,
}

-- Validation leaves the operation, whatever it makes of the body.
abbrev pub Keeps : Operation → Operation → Type 0
Keeps op checked = (x : Content) (n : ℕ) → OperationBody checked x n → OperationBody op x n

pub validate-Keeps : (email : EmailCheck) (op : Operation) → Whenever (Keeps op) (validate email op)
unfolding validate
validate-Keeps email (post_route body) =
    mapped-Whenever (Keeps (post_route body)) post_route _ (λ b x n k. k)
validate-Keeps email (post_vehicle body) =
    mapped-Whenever (Keeps (post_vehicle body)) post_vehicle _ (λ b x n k. k)
validate-Keeps email (post_user body) =
    mapped-Whenever (Keeps (post_user body)) post_user _ (λ b x n k. k)
validate-Keeps email (change_route id body) =
    mapped-Whenever (Keeps (change_route id body)) (change_route id) _ (λ b x n k. k)
validate-Keeps email (change_vehicle id body) =
    mapped-Whenever (Keeps (change_vehicle id body)) (change_vehicle id) _ (λ b x n k. k)
validate-Keeps email (change_user id body) =
    mapped-Whenever (Keeps (change_user id body)) (change_user id) _ (λ b x n k. k)
validate-Keeps email (put_assignment id body) =
    mapped-Whenever (Keeps (put_assignment id body)) (put_assignment id) _ (λ b x n k. k)
validate-Keeps email list_all_routes = λ x n k. k
validate-Keeps email (read_route id) = λ x n k. k
validate-Keeps email (drop_route id) = λ x n k. k
validate-Keeps email list_all_vehicles = λ x n k. k
validate-Keeps email (read_vehicle id) = λ x n k. k
validate-Keeps email (drop_vehicle id) = λ x n k. k
validate-Keeps email list_all_users = λ x n k. k
validate-Keeps email (read_user id) = λ x n k. k
validate-Keeps email (drop_user id) = λ x n k. k

pub validate_view-Keeps :
    (v : View)
    → Whenever
        (λ checked. (x : Content) (n : ℕ) → ViewBody checked x n → ViewBody v x n)
        (validate_view v)
unfolding validate_view
validate_view-Keeps (my_vehicle_history params) =
    mapped-Whenever
      (λ checked.
        (x : Content) (n : ℕ) → ViewBody checked x n → ViewBody (my_vehicle_history params) x n)
      my_vehicle_history _ (λ b x n k. k)
validate_view-Keeps my_profile = λ x n k. k
validate_view-Keeps my_assignment = λ x n k. k
validate_view-Keeps my_route = λ x n k. k
validate_view-Keeps my_vehicle_current = λ x n k. k

pub other_form :
    (details : List ErrorDetail) (P Q : Content → ℕ → Type 0) (r : Response)
    → ((x : Content) (n : ℕ) → P x n → Q x n)
    → Fits details P r
    → Fits details Q r
other_form details P Q r f (inl k) = inl (f r.content r.status k)
other_form details P Q r f (inr k) = inr k

module _ (s : Session) (h : Hasher) (email : EmailCheck) (details : List ErrorDetail) where
  pub serve-Fits :
      (d : Database) (call : Call) (op : Operation)
      → Fits details (OperationBody op) (finish email (success_status op) d (serve s h d call op)).0
  unfolding serve success_status render user_out
  serve-Fits d call (post_route body) =
      changing-Fits details (OperationBody (post_route body)) email 201 d route_answer _ (λ a.
        mapped-Whenever (λ x. OperationBody (post_route body) x 201) route_content (route_out a)
          (λ b. (refl, (b, refl))))
  serve-Fits d call (read_route id) =
      reading-Fits details (OperationBody (read_route id)) email 200 d route_answer _ (λ a.
        mapped-Whenever (λ x. OperationBody (read_route id) x 200) route_content (route_out a)
          (λ b. (refl, (b, refl))))
  serve-Fits d call (change_route id body) =
      changing-Fits details (OperationBody (change_route id body)) email 200 d route_answer _ (λ a.
        mapped-Whenever (λ x. OperationBody (change_route id body) x 200) route_content
          (route_out a) (λ b. (refl, (b, refl))))
  serve-Fits d call (drop_route id) =
      deleting-Fits details (OperationBody (drop_route id)) email 204 d _ (refl, refl)
  serve-Fits d call (post_vehicle body) =
      changing-Fits details (OperationBody (post_vehicle body)) email 201 d vehicle_answer _
        (λ a. (refl, (_, refl)))
  serve-Fits d call (read_vehicle id) =
      reading-Fits details (OperationBody (read_vehicle id)) email 200 d vehicle_answer _
        (λ a. (refl, (_, refl)))
  serve-Fits d call (change_vehicle id body) =
      changing-Fits details (OperationBody (change_vehicle id body)) email 200 d vehicle_answer _
        (λ a. (refl, (_, refl)))
  serve-Fits d call (drop_vehicle id) =
      deleting-Fits details (OperationBody (drop_vehicle id)) email 204 d _ (refl, refl)
  serve-Fits d call (post_user body) =
      changing-Fits details (OperationBody (post_user body)) email 201 d user_answer _ (λ a.
        mapped-Whenever (λ x. OperationBody (post_user body) x 201) user_content (user_out email a)
          (λ b. (refl, (b, refl))))
  serve-Fits d call (read_user id) =
      reading-Fits details (OperationBody (read_user id)) email 200 d user_answer _ (λ a.
        mapped-Whenever (λ x. OperationBody (read_user id) x 200) user_content (user_out email a)
          (λ b. (refl, (b, refl))))
  serve-Fits d call (change_user id body) =
      changing-Fits details (OperationBody (change_user id body)) email 200 d user_answer _ (λ a.
        mapped-Whenever (λ x. OperationBody (change_user id body) x 200) user_content
          (user_out email a) (λ b. (refl, (b, refl))))
  serve-Fits d call (drop_user id) =
      deleting-Fits details (OperationBody (drop_user id)) email 204 d _ (refl, refl)
  serve-Fits d call (put_assignment id body) =
      changing-Fits details (OperationBody (put_assignment id body)) email 200 d user_answer _ (λ a.
        mapped-Whenever (λ x. OperationBody (put_assignment id body) x 200) user_content
          (user_out email a) (λ b. (refl, (b, refl))))
  serve-Fits d call list_all_routes =
      listed-Fits details (OperationBody list_all_routes) email 200 d (routes_answer _) (
        mapped-Whenever (λ x. OperationBody list_all_routes x 200) routes_content
          (each route_out (list_routes s d)) (λ b. (refl, (b, refl))))
  serve-Fits d call list_all_users =
      listed-Fits details (OperationBody list_all_users) email 200 d (users_answer _) (
        mapped-Whenever (λ x. OperationBody list_all_users x 200) users_content
          (each (user_out email) (list_users s d)) (λ b. (refl, (b, refl))))
  serve-Fits d call list_all_vehicles =
      listed-Fits details (OperationBody list_all_vehicles) email 200 d (fleet_answer _)
        (refl, (_, refl))

  pub view-Fits :
      (d : Database) (now : ℕ) (u : User) (v : View)
      → Fits details (ViewBody v) (finish email 200 d (view s h d now u v)).0
  unfolding view render user_out
  view-Fits d now u my_profile =
      listed-Fits details (ViewBody my_profile) email 200 d (user_answer u) (
        mapped-Whenever (λ x. ViewBody my_profile x 200) user_content (user_out email u)
          (λ b. (refl, (b, refl))))
  view-Fits d now u my_assignment =
      reading-Fits details (ViewBody my_assignment) email 200 d assignment_answer _
        (λ a. (refl, (a, refl)))
  view-Fits d now u my_route =
      reading-Fits details (ViewBody my_route) email 200 d polyline_answer _
        (λ a. polyline-Whenever email (λ x. ViewBody my_route x 200) a (refl, (a, refl)))
  view-Fits d now u my_vehicle_current =
      reading-Fits details (ViewBody my_vehicle_current) email 200 d live_answer _
        (λ a. (refl, (a, refl)))
  view-Fits d now u (my_vehicle_history params) =
      reading-Fits details (ViewBody (my_vehicle_history params)) email 200 d history_answer _
        (λ a. (refl, (a, refl)))
